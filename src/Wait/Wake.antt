-- ===== src/Wait/Wake.antt =====
-- Waking one process: it leaves its sleep queue for its level, and nothing else moves.
use x_os_tmp.Base.{
  ℕ, ◌<◌, ◌≡◌, ◌≢◌, refl, sym, ◌∙◌, subst, ◌==◌, ltb, List, [], ◌∷◌, ◌++◌, arith, Bool-cases, inl,
  inr, eq→==, ne→==, ==→eq, Run, ok, ◌>>=◌, set_at_self, set_at_ne, In, In-middle, In-middle,
}
use x_os_tmp.CircularList.{node, Links, circular_list_remove}
use x_os_tmp.CircularList.Rings.{
  Rings, with_row, Rings-remove, removed-out, removed-old, removed-keeps,
}
use x_os_tmp.Kernel.{Kernel, process_running, process_waiting, lock_task, add32}
use x_os_tmp.Kernel.Lock.{CanLock}
use x_os_tmp.Sched.{in_sched_queue}
use x_os_tmp.Sched.Joined.{Joined, Joined-one, level_for}
use x_os_tmp.Sched.Queues.{SchedInv, in_sched_queue-ok, queued-SchedInv, queued}
use x_os_tmp.Wait.{kwakeup}

-- `kwakeup(proc); in_sched_queue(proc);`
abbrev pub wake : ℕ → Kernel → Run Kernel
wake p k = do k' ← kwakeup p k; in_sched_queue p k'

-- Run queues and sleep queues, well formed, with every sleeper waiting.
pub record Queues (k : Kernel) (ts tl : ℕ → List ℕ) : Type 0 where
  pub sched : SchedInv k ts
  pub sleep : Rings k.sleep_links 513 tl
  pub asleep : (i p : ℕ) → In p (tl i) → k.state p ≡ process_waiting
  pub niced : (p : ℕ) → k.nice p < 16
  pub can_lock : CanLock k

-- A process asleep in one of the queues.
abbrev pub Asleep : (ℕ → List ℕ) → ℕ → Type 0
Asleep tl p = (i : ℕ) × (i < 513) × In p (tl i)

-- What a wake leaves alone: the other processes and sleepers, the blocking objects, the clock.
pub record Untouched (p : ℕ) (k k' : Kernel) : Type 0 where
  pub state : (q : ℕ) → q ≢ p → k'.state q ≡ k.state q
  pub demand : k'.demand ≡ k.demand
  pub wait_links : k'.wait_links ≡ k.wait_links
  pub surplus : k'.surplus ≡ k.surplus
  pub jiffies : k'.jiffies ≡ k.jiffies
  pub cur_process : k'.cur_process ≡ k.cur_process
  pub nice : k'.nice ≡ k.nice
  pub rest_time : (q : ℕ) → q ≢ p → k'.rest_time q ≡ k.rest_time q
  pub active_queue : k'.active_queue ≡ k.active_queue
  pub expire_queue : k'.expire_queue ≡ k.expire_queue
  pub lock_count : (q : ℕ) → k'.lock_count q ≡ k.lock_count q

-- The levels of the other processes are as before.
pub Untouched-level :
    (p : ℕ) (k k' : Kernel) → Untouched p k k' → (q : ℕ) → q ≢ p → level_for q k' ≡ level_for q k
Untouched-level p k k' u q ne = rw (u.rest_time q ne, u.nice, u.active_queue, u.expire_queue) refl

-- An assignment to the fields of the blocking objects keeps the queues.
pub Queues-objects :
    (k : Kernel) (ts tl : ℕ → List ℕ) (l : Links) (f g : ℕ → ℕ)
    → Queues k ts tl
    → Queues (record k { wait_links = l; surplus = f; demand = g }) ts tl
Queues-objects k ts tl l f g q = record {
  sched = record {
    rings = q.sched.rings;
    runs = q.sched.runs;
    placed = q.sched.placed;
    counted = q.sched.counted;
    active = q.sched.active;
    expire = q.sched.expire;
  };
  sleep = q.sleep;
  asleep = q.asleep;
  niced = q.niced;
  can_lock = q.can_lock;
}

module _ (k : Kernel) (ts tl : ℕ → List ℕ) (p : ℕ) (q : Queues k ts tl) (i : ℕ) (h : i < 513)
    (xs ys : List ℕ) (e : tl i ≡ xs ++ (p ∷ ys)) where
  -- The kernel between the two calls.
  abbrev woken : Kernel
  woken = record k { sleep_links = circular_list_remove (node p) k.sleep_links }

  waits : k.state p ≡ process_waiting
  waits = q.asleep i p (rw e (In-middle xs p ys))

  not-queued : (j : ℕ) → In p (ts j) → ⊥
  not-queued j m = cc (sym waits ∙ q.sched.runs j p m)

  wake-ok : wake p k ≡ ok (queued p woken)
  unfolding kwakeup
  wake-ok = rw (eq→== _ _ waits) (in_sched_queue-ok p woken q.can_lock)

  queued-lock_count : (r : ℕ) → (queued p woken).lock_count r ≡ k.lock_count r
  unfolding lock_task
  queued-lock_count r = elim (Bool-cases (r == k.cur_process)) [
    | inl b ↦
        rw
          (
            b,
            ==→eq r k.cur_process b,
            set_at_self k.lock_count k.cur_process (add32 (k.lock_count k.cur_process) 1),
          )
          (omega (arith, q.can_lock))
    | inr b ↦ rw b refl
  ]

  -- Waking a process that sleeps on a list of a well-formed kernel does not panic: the process
  -- leaves the list, runs, and stands at the end of its level, while every other level is as it
  -- was. The run queues with their counts and the sleep lists stay well formed, the lock counters,
  -- the clock, the queue pointers, the priorities, and the states and times of the other processes
  -- are as before.
  pub wake-Queues :
      (k' : Kernel) × (ts' : ℕ → List ℕ) × (wake p k ≡ ok k')
      × Queues k' ts' (with_row tl i (xs ++ ys))
      × Untouched p k k'
      × (k'.state p ≡ process_running)
      × Joined (p ∷ []) k ts ts'
  unfolding lock_task
  wake-Queues = (
    queued p woken,
    _,
    wake-ok,
    record {
      sched = queued-SchedInv p woken ts (q.niced p) not-queued (record {
        rings = q.sched.rings;
        runs = q.sched.runs;
        placed = q.sched.placed;
        counted = q.sched.counted;
        active = q.sched.active;
        expire = q.sched.expire;
      });
      sleep = Rings-remove k.sleep_links 513 tl i h q.sleep xs p ys e;
      asleep = λ j r m.
          rw
            (ne→== r p (λ w.
              removed-out k.sleep_links 513 tl i xs p ys h e q.sleep j
                (subst (λ z. In z (with_row tl i (xs ++ ys) j)) w m)))
            (q.asleep j r (removed-old k.sleep_links 513 tl i xs p ys h e q.sleep j r m));
      niced = q.niced;
      can_lock = rw (queued-lock_count k.cur_process) q.can_lock;
    },
    record {
      state = λ r ne. set_at_ne k.state p process_running r ne;
      demand = refl;
      wait_links = refl;
      surplus = refl;
      jiffies = refl;
      cur_process = refl;
      nice = refl;
      rest_time = times;
      active_queue = refl;
      expire_queue = refl;
      lock_count = queued-lock_count;
    },
    set_at_self k.state p process_running,
    Joined-one p k ts,
  )
    where
      times : (r : ℕ) → r ≢ p → (queued p woken).rest_time r ≡ k.rest_time r
      times r ne = elim (Bool-cases (ltb 0 (k.rest_time p))) [
        | inl b ↦ rw b refl
        | inr b ↦ rw b (set_at_ne k.rest_time p _ r ne)
      ]

  -- Every other sleeper sleeps on.
  pub wake-Asleep : (r : ℕ) → r ≢ p → Asleep tl r → Asleep (with_row tl i (xs ++ ys)) r
  wake-Asleep r ne a =
      (a.0, a.1, removed-keeps k.sleep_links 513 tl i xs p ys h e q.sleep a.0 r ne a.2)
