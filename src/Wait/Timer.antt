-- ===== src/Wait/Timer.antt =====
-- `do_timer` (src/sched.c) as a whole: the tick, the processes that are due, and the next process.
use x_os_tmp.Base.{
  ℕ, ◌+◌, ◌<◌, ◌≡◌, ◌≢◌, refl, sym, subst, ◌∙◌, List, ◌∷◌, ◌++◌, length, arith, ne→==, eq→==, ok,
  In, In-split,
}
use x_os_tmp.Kernel.{Kernel, add32, v_lock_task, word}
use x_os_tmp.Sched.{schedule}
use x_os_tmp.Sched.Schedule.{Parked, Scheduled, requeued, time_left, schedule-running}
use x_os_tmp.Wait.{wheel_hash, do_timer}
use x_os_tmp.Wait.Tick.{Woken, wake_ready-Woken}
use x_os_tmp.Wait.Wake.{Queues}

-- The kernel that the loop starts from.
abbrev pub ticking : Kernel → Kernel
unfolding v_lock_task
ticking k = let k₁ = v_lock_task k in record k₁ { jiffies = add32 k₁.jiffies 1 }

-- The loop woke those that are due, and schedule put the process that ran behind the others of its
-- level, from the kernel k₂ on.
pub record Ticked (k : Kernel) (ts tl : ℕ → List ℕ) (k' : Kernel) : Type 0 where
  pub k₂ : Kernel
  pub woken : Woken (add32 k.jiffies 1) k.wakeup_jiffies (ticking k) ts tl k₂
  pub row : ℕ
  pub before : List ℕ
  pub behind : List ℕ
  pub at : woken.levels row ≡ before ++ (k.cur_process ∷ behind)
  pub scheduled : Scheduled k₂ (ok k') (requeued k₂ woken.levels row before behind) (time_left k₂)
  pub clock : k'.jiffies ≡ add32 k.jiffies 1

ticking-Queues :
    (k : Kernel) (ts tl : ℕ → List ℕ)
    → k.lock_count k.cur_process + 2 < word
    → Queues k ts tl
    → Queues (ticking k) ts tl
unfolding v_lock_task
ticking-Queues k ts tl room q = record {
  sched = record {
    rings = q.sched.rings;
    runs = q.sched.runs;
    placed = q.sched.placed;
    counted = q.sched.counted;
    active = q.sched.active;
    expire = q.sched.expire;
  };
  sleep = q.sleep;
  asleep = q.asleep;
  niced = q.niced;
  can_lock = rw (eq→== k.cur_process k.cur_process refl) (omega (arith, room));
}

ticking-Parked : (k : Kernel) → Parked k → Parked (ticking k)
unfolding v_lock_task
ticking-Parked k h p ne = rw (ne→== p k.cur_process ne) (h p ne)

module _ (k k₂ : Kernel) (ts tl : ℕ → List ℕ) (i : ℕ) (h : i < 32) (parked : Parked k)
    (here : In k.cur_process (ts i)) (on : k.sched_queue k.cur_process ≡ k.active_queue)
    (ne : k.active_queue ≢ k.expire_queue) (q : Queues k ts tl)
    (w : Woken (add32 k.jiffies 1) k.wakeup_jiffies (ticking k) ts tl k₂) where
  awake : In k.cur_process (tl (wheel_hash (add32 k.jiffies 1))) → ⊥
  awake m = cc (
      sym (q.asleep (wheel_hash (add32 k.jiffies 1)) k.cur_process m)
      ∙ q.sched.runs i k.cur_process here)

  same_process : k₂.cur_process ≡ k.cur_process
  unfolding v_lock_task
  same_process = w.beside.cur_process

  parts : (xs : List ℕ) × (ys : List ℕ) × (w.levels i ≡ xs ++ (k.cur_process ∷ ys))
  parts = In-split k.cur_process (w.levels i) (w.beside.stays k.cur_process i here)

  still_on : k₂.sched_queue k₂.cur_process ≡ k₂.active_queue
  unfolding v_lock_task
  still_on =
      rw same_process (w.beside.sched_queue k.cur_process awake ∙ on ∙ sym w.beside.active_queue)

  still-Parked : Parked k₂
  unfolding v_lock_task
  still-Parked p away =
      subst (λ n. 0 < n) (sym (w.beside.lock_count p))
        (ticking-Parked k parked p (λ e. away (e ∙ sym same_process)))

  scheduled : Scheduled k₂ (schedule k₂) (requeued k₂ w.levels i parts.0 parts.1) (time_left k₂)
  unfolding v_lock_task
  scheduled =
      schedule-running k₂ w.levels i parts.0 parts.1 w.queues.can_lock still-Parked h
        (w.queues.niced k₂.cur_process) (rw same_process parts.2) still_on
        (λ e. ne (sym w.beside.active_queue ∙ e ∙ w.beside.expire_queue)) w.queues.sched

-- When the queues are well formed with every sleeper waiting, the process that runs stands on its
-- level of the active queue, the two queue pointers differ, every other process holds its lock,
-- there is room for two more locks, and the fuel and the rounds are more than the processes in the
-- slot of the time wheel of the next tick, do_timer ends: the clock is one tick on; the processes
-- of that slot that are due run and have come, in their order, to the ends of their levels, while
-- the others of the slot sleep on and the other lists are as they were; and schedule has taken 1
-- from the time of the process that ran and put it behind the others of its level, on the other
-- queue with new time if that was the last. The two queues change places exactly when the active
-- one has then no process; both are well formed, and the first process of the lowest level in use
-- goes on.
pub do_timer-Ticked :
    (rounds fuel : ℕ) (k : Kernel) (ts tl : ℕ → List ℕ) (i : ℕ)
    → length (tl (wheel_hash (add32 k.jiffies 1))) < fuel
    → length (tl (wheel_hash (add32 k.jiffies 1))) < rounds
    → k.lock_count k.cur_process + 2 < word
    → Parked k
    → i < 32
    → In k.cur_process (ts i)
    → k.sched_queue k.cur_process ≡ k.active_queue
    → k.active_queue ≢ k.expire_queue
    → Queues k ts tl
    → (k' : Kernel) × (do_timer rounds fuel k ≡ ok k') × Ticked k ts tl k'
unfolding do_timer v_lock_task
do_timer-Ticked rounds fuel k ts tl i f g room parked h here on ne q =
    let r = wake_ready-Woken rounds fuel (ticking k) ts tl f g (ticking-Queues k ts tl room q) in
    let s = scheduled k r.0 ts tl i h parked here on ne q r.2 in
    let p = parts k r.0 ts tl i h parked here on ne q r.2 in
    (
      s.0,
      rw (r.1) s.1,
      record {
        k₂ = r.0;
        woken = r.2;
        row = i;
        before = p.0;
        behind = p.1;
        at = p.2;
        scheduled = (s.0, refl, s.2, s.3, s.4, s.5, s.6, s.7);
        clock = s.4.jiffies ∙ r.2.beside.jiffies;
      },
    )
