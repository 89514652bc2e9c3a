-- ===== src/Sched/Schedule.antt =====
-- The whole of `schedule`: the run queues stay well formed, and the process that gets the
-- processor is the first of the lowest level in use.
use x_os_tmp.Base.{
  ℕ, ◌+◌, ◌*◌, ◌%◌, ◌^◌, ap, ◌∙◌, set_at, ◌<◌, ◌≡◌, ◌≢◌, refl, ◌==◌, List, ◌∷◌, ◌++◌, arith,
  if◌then◌else◌, Bool-cases, inl, inr, ==→ne, Run, ok, ne→==, lt→ltb, In-middle, Bool,
}
use x_os_tmp.Kernel.{Kernel, process_running, process1, lock_task, unlock_task}
use x_os_tmp.Kernel.Lock.{CanLock, unlock_task-ok, released}
use x_os_tmp.Sched.{level, requeue, swap_queues, schedule, pick_from}
use x_os_tmp.Sched.Count.{total}
use x_os_tmp.Sched.Pick.{first_ready, pick-first_ready}
use x_os_tmp.Sched.Queues.{SchedInv}
use x_os_tmp.Sched.Requeue.{
  moved, rotated, expired, ticked, requeue-running, rotated-SchedInv, expired-SchedInv,
}

-- The exchange of the two pointers keeps the invariant.
pub swap_queues-SchedInv : (k : Kernel) (t : ℕ → List ℕ) → SchedInv k t → SchedInv (swap_queues k) t
unfolding swap_queues
swap_queues-SchedInv k t inv = elim (Bool-cases (k.queue_count k.active_queue == 0)) [
  | inl e ↦ rw e (record {
    rings = inv.rings;
    runs = inv.runs;
    placed = inv.placed;
    counted = inv.counted;
    active = inv.expire;
    expire = inv.active;
  })
  | inr e ↦ rw e inv
]

-- The queues and the process that `schedule` comes to from the state `k` after the requeue.
abbrev pub chosen : Kernel → (ℕ → List ℕ) → ℕ
chosen k t = first_ready 16 0 (λ j. t (level (swap_queues k).active_queue j)) process1

pub pick-chosen :
    (k : Kernel) (t : ℕ → List ℕ)
    → SchedInv k t
    → pick_from 16 process1 (swap_queues k) ≡ chosen k t
pick-chosen k t inv =
    let s = swap_queues-SchedInv k t inv in
    pick-first_ready (swap_queues k) (λ j. t (level (swap_queues k).active_queue j))
      (λ j h. s.rings.ring (level (swap_queues k).active_queue j) (omega (arith, s.active)))

-- What the scheduler leaves alone: states, sleepers, and the blocking objects.
pub record Aside (k k' : Kernel) : Type 0 where
  pub state : k'.state ≡ k.state
  pub sleep_links : k'.sleep_links ≡ k.sleep_links
  pub wait_links : k'.wait_links ≡ k.wait_links
  pub demand : k'.demand ≡ k.demand
  pub surplus : k'.surplus ≡ k.surplus
  pub jiffies : k'.jiffies ≡ k.jiffies
  pub wakeup_jiffies : k'.wakeup_jiffies ≡ k.wakeup_jiffies

-- The queues change places exactly when no process stands on the active one, as its count of 32
-- bits has it.
abbrev pub exchanged : Kernel → (ℕ → List ℕ) → Bool
exchanged k t = total 16 (16 * k.active_queue) t % 2 ^ 32 == 0

-- `schedule` returns the well-formed queues `t`, with the first process of the lowest level of the
-- queue that is active then; the process that had the processor has `time` left, the others as
-- before.
abbrev pub Scheduled : Kernel → Run Kernel → (ℕ → List ℕ) → ℕ → Type 0
Scheduled k r t time =
    (k' : Kernel) × (r ≡ ok k')
    × SchedInv k' t
    × (k'.cur_process ≡ first_ready 16 0 (λ j. t (level k'.active_queue j)) process1)
    × Aside k k'
    × (k'.active_queue ≡ (if exchanged k t then k.expire_queue else k.active_queue))
    × (k'.expire_queue ≡ (if exchanged k t then k.active_queue else k.expire_queue))
    × ((q : ℕ) → k'.rest_time q ≡ (if q == k.cur_process then time else k.rest_time q))

-- The part of the kernel that the requeue does not change but for the time of the process.
record Same (k m : Kernel) (time : ℕ) : Type 0 where
  active : m.active_queue ≡ k.active_queue
  expire : m.expire_queue ≡ k.expire_queue
  times : (q : ℕ) → m.rest_time q ≡ (if q == k.cur_process then time else k.rest_time q)

swap_queues-exchanged :
    (k m : Kernel) (t : ℕ → List ℕ) (time : ℕ)
    → SchedInv m t
    → Same k m time
    → ((swap_queues m).active_queue ≡ (if exchanged k t then k.expire_queue else k.active_queue))
      × ((swap_queues m).expire_queue ≡ (if exchanged k t then k.active_queue else k.expire_queue))
      × ((q : ℕ) → (swap_queues m).rest_time q ≡ m.rest_time q)
unfolding swap_queues
swap_queues-exchanged k m t time inv s =
    let c : (m.queue_count m.active_queue == 0) ≡ exchanged k t =
      ap (λ n. n == 0) (inv.counted m.active_queue inv.active)
      ∙ ap (λ a. total 16 (16 * a) t % 2 ^ 32 == 0) s.active in
    elim (Bool-cases (m.queue_count m.active_queue == 0)) [
      | inl e ↦ rw (e, ← c, e) (s.expire, s.active, λ q. refl)
      | inr e ↦ rw (e, ← c, e) (s.active, s.expire, λ q. refl)
    ]

-- Every process holds its lock while another one has the processor.
abbrev pub Parked : Kernel → Type 0
Parked k = (p : ℕ) → p ≢ k.cur_process → 0 < k.lock_count p

lock_count-swap : (k : Kernel) (p : ℕ) → (swap_queues k).lock_count p ≡ k.lock_count p
unfolding swap_queues
lock_count-swap k p = elim (Bool-cases (k.queue_count k.active_queue == 0)) [
  | inl e ↦ rw e refl
  | inr e ↦ rw e refl
]

swap_queues-Aside : (k m : Kernel) → Aside k m → Aside k (swap_queues m)
unfolding swap_queues
swap_queues-Aside k m a = elim (Bool-cases (m.queue_count m.active_queue == 0)) [
  | inl e ↦ rw e (record {
    state = a.state;
    sleep_links = a.sleep_links;
    wait_links = a.wait_links;
    demand = a.demand;
    surplus = a.surplus;
    jiffies = a.jiffies;
    wakeup_jiffies = a.wakeup_jiffies;
  })
  | inr e ↦ rw e a
]

finish-Scheduled :
    (k m : Kernel) (t : ℕ → List ℕ) (time : ℕ)
    → SchedInv m t
    → Same k m time
    → ((p : ℕ) → 0 < m.lock_count p)
    → Aside k m
    → Scheduled k
        (unlock_task
          (record (swap_queues m) { cur_process = pick_from 16 process1 (swap_queues m) }))
        t
        time
finish-Scheduled k m t time inv same held aside =
    let new = pick_from 16 process1 (swap_queues m) in
    let s = swap_queues-SchedInv m t inv in
    let a = swap_queues-Aside k m aside in
    let x = swap_queues-exchanged k m t time inv same in
    (
      released (record (swap_queues m) { cur_process = new }),
      unlock_task-ok (record (swap_queues m) { cur_process = new })
          (rw (lock_count-swap m new) (held new)),
      record {
        rings = s.rings;
        runs = s.runs;
        placed = s.placed;
        counted = s.counted;
        active = s.active;
        expire = s.expire;
      },
      pick-chosen m t inv,
      record {
        state = a.state;
        sleep_links = a.sleep_links;
        wait_links = a.wait_links;
        demand = a.demand;
        surplus = a.surplus;
        jiffies = a.jiffies;
        wakeup_jiffies = a.wakeup_jiffies;
      },
      x.0,
      x.1,
      λ q. x.2 q ∙ same.times q,
    )

schedule-after :
    (k : Kernel) (t : ℕ → List ℕ) (time : ℕ)
    → k.nice k.cur_process < 16
    → SchedInv (requeue (lock_task k)) t
    → Same k (requeue (lock_task k)) time
    → ((p : ℕ) → 0 < (requeue (lock_task k)).lock_count p)
    → Aside k (requeue (lock_task k))
    → Scheduled k (schedule k) t time
unfolding schedule lock_task
schedule-after k t time n inv same held a =
    rw (lt→ltb _ _ n) (finish-Scheduled k (requeue (lock_task k)) t time inv same held a)

lock_task-SchedInv : (k : Kernel) (t : ℕ → List ℕ) → SchedInv k t → SchedInv (lock_task k) t
unfolding lock_task
lock_task-SchedInv k t inv = record {
  rings = inv.rings;
  runs = inv.runs;
  placed = inv.placed;
  counted = inv.counted;
  active = inv.active;
  expire = inv.expire;
}

lock_task-held : (k : Kernel) → CanLock k → Parked k → (p : ℕ) → 0 < (lock_task k).lock_count p
unfolding lock_task
lock_task-held k c held p = elim (Bool-cases (p == k.cur_process)) [
  | inl e ↦ rw e (omega arith)
  | inr e ↦ rw e (held p (==→ne p k.cur_process e))
]

-- The rows after the running process was requeued: on the other queue if its time is up.
abbrev pub requeued : Kernel → (ℕ → List ℕ) → ℕ → List ℕ → List ℕ → ℕ → List ℕ
requeued k t i xs ys =
    moved t i xs k.cur_process ys
      (level (if ticked k == 0 then k.expire_queue else k.active_queue) (k.nice k.cur_process))

-- The time that the running process is left with: 1 less, or new time when that was the last.
abbrev pub time_left : Kernel → ℕ
time_left k = if ticked k == 0 then (k.nice k.cur_process + 1) % 2 ^ 16 else ticked k

-- When the running process stands on its level of the active queue with a priority below 16, can
-- take one more lock, the two queue pointers differ and every other process holds its lock,
-- schedule returns: the process has 1 less of its time and is at the back of its level, or, if
-- that was the last, has a new time of its priority and 1 more and is at the back of its level on
-- the other queue. The two queues change places exactly when the active one has then no process,
-- by its counter of 32 bits; both stay well formed with their counts, and the first process of the
-- lowest level in use goes on.
pub schedule-running :
    (k : Kernel) (t : ℕ → List ℕ) (i : ℕ) (xs ys : List ℕ)
    → CanLock k
    → Parked k
    → i < 32
    → k.nice k.cur_process < 16
    → t i ≡ xs ++ (k.cur_process ∷ ys)
    → k.sched_queue k.cur_process ≡ k.active_queue
    → k.active_queue ≢ k.expire_queue
    → SchedInv k t
    → Scheduled k (schedule k) (requeued k t i xs ys) (time_left k)
unfolding lock_task
schedule-running k t i xs ys c held h n e on ne inv = elim (Bool-cases (ticked k == 0)) [
  | inl w ↦ rw w (
      schedule-after k _ _ n (rw (eq w) (expired-SchedInv (lock_task k) t i xs ys h n e on inv' ne))
        (rw (eq w) (record { active = refl; expire = refl; times = λ q. twice q }))
        (λ p. rw (eq w) (lock_task-held k c held p))
        (rw (eq w) (record {
          state = refl;
          sleep_links = refl;
          wait_links = refl;
          demand = refl;
          surplus = refl;
          jiffies = refl;
          wakeup_jiffies = refl;
        })))
  | inr w ↦ rw w (
      schedule-after k _ _ n (rw (eq w) (rotated-SchedInv (lock_task k) t i xs ys h n e on inv'))
        (rw (eq w) (record { active = refl; expire = refl; times = λ q. refl }))
        (λ p. rw (eq w) (lock_task-held k c held p))
        (rw (eq w) (record {
          state = refl;
          sleep_links = refl;
          wait_links = refl;
          demand = refl;
          surplus = refl;
          jiffies = refl;
          wakeup_jiffies = refl;
        })))
]
  where
    twice :
        (q : ℕ)
        → set_at
            (set_at k.rest_time k.cur_process (ticked k))
            k.cur_process
            ((k.nice k.cur_process + 1) % 2 ^ 16)
            q
          ≡ (if q == k.cur_process then (k.nice k.cur_process + 1) % 2 ^ 16 else k.rest_time q)
    twice q = elim (Bool-cases (q == k.cur_process)) [ inl z ↦ rw z refl | inr z ↦ rw z refl ]

    inv' : SchedInv (lock_task k) t
    inv' = lock_task-SchedInv k t inv

    runs : k.state k.cur_process ≡ process_running
    runs = inv.runs i k.cur_process (rw e (In-middle xs k.cur_process ys))

    eq :
        {b : Bool}
        → (ticked k == 0) ≡ b
        → requeue (lock_task k) ≡ (if b then expired (lock_task k) else rotated (lock_task k))
    eq w = rw (← w) (requeue-running (lock_task k) runs)

-- When the process that has the processor waits and every other process holds its lock, schedule
-- returns with the levels as they were and the first process of the lowest level in use on the
-- processor.
pub schedule-waiting :
    (k : Kernel) (t : ℕ → List ℕ)
    → CanLock k
    → Parked k
    → k.nice k.cur_process < 16
    → k.state k.cur_process ≢ process_running
    → SchedInv k t
    → Scheduled k (schedule k) t (ticked k)
unfolding lock_task requeue
schedule-waiting k t c held n w inv =
    schedule-after k t (ticked k) n
      (rw (ne→== _ _ w) (record {
        rings = inv.rings;
        runs = inv.runs;
        placed = inv.placed;
        counted = inv.counted;
        active = inv.active;
        expire = inv.expire;
      }))
      (rw (ne→== _ _ w) (record { active = refl; expire = refl; times = λ q. refl }))
      (λ p. rw (ne→== _ _ w) (lock_task-held k c held p))
      (rw (ne→== _ _ w) (record {
        state = refl;
        sleep_links = refl;
        wait_links = refl;
        demand = refl;
        surplus = refl;
        jiffies = refl;
        wakeup_jiffies = refl;
      }))
