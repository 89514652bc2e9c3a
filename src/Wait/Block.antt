-- ===== src/Wait/Block.antt =====
-- A process that blocks: it leaves its level, goes to a sleep queue, and `schedule` gives the
-- processor to another one. The blocking calls of the kernel all end this way.
use x_os_tmp.Base.{
  ℕ, zero, suc, ◌<◌, ◌≡◌, refl, ◌∙◌, subst, ◌==◌, List, ◌∷◌, ◌++◌, arith, Bool-cases, inl, inr,
  In-middle, ==→eq, ne→==, Run, ◌>>=◌, set_at, set_at_self, set_at_ne, In, ℤ, pos, negsuc,
}
use x_os_tmp.CircularList.Rings.{Rings, Rings-insert_front, with_row, removed-out}
use x_os_tmp.Kernel.{Kernel, process_running, process_waiting, lock_task, add32}
use x_os_tmp.Kernel.Lock.{CanLock}
use x_os_tmp.Sched.{out_sched_queue, schedule}
use x_os_tmp.Sched.Queues.{SchedInv, unqueued, unqueued-SchedInv, out_sched_queue-ok}
use x_os_tmp.Sched.Schedule.{Parked, Scheduled, schedule-waiting}
use x_os_tmp.Sched.Requeue.{ticked}
use x_os_tmp.Wait.{wait_list, wheel_hash, sleep_for, kwait, ksleep, sys_tsleep}

module _ (k : Kernel) (t : ℕ → List ℕ) (p : ℕ) where
  sleep_for-SchedInv :
      (timeout : ℤ) → ((j : ℕ) → In p (t j) → ⊥) → SchedInv k t → SchedInv (sleep_for timeout p k) t
  unfolding sleep_for kwait ksleep
  sleep_for-SchedInv timeout out inv = go timeout
    where
      runs : (i q : ℕ) → In q (t i) → set_at k.state p process_waiting q ≡ process_running
      runs i q m =
          set_at_ne k.state p process_waiting q (λ e. out i (subst (λ z. In z (t i)) e m))
          ∙ inv.runs i q m

      go : (n : ℤ) → SchedInv (sleep_for n p k) t
      go (pos zero) = record {
        rings = inv.rings;
        runs = runs;
        placed = inv.placed;
        counted = inv.counted;
        active = inv.active;
        expire = inv.expire;
      }
      go (pos (suc n)) = record {
        rings = inv.rings;
        runs = runs;
        placed = inv.placed;
        counted = inv.counted;
        active = inv.active;
        expire = inv.expire;
      }
      go (negsuc n) = record {
        rings = inv.rings;
        runs = runs;
        placed = inv.placed;
        counted = inv.counted;
        active = inv.active;
        expire = inv.expire;
      }

  sleep_for_state : (timeout : ℤ) → (sleep_for timeout p k).state p ≡ process_waiting
  unfolding sleep_for kwait ksleep
  sleep_for_state (pos zero) = set_at_self k.state p process_waiting
  sleep_for_state (pos (suc n)) = set_at_self k.state p process_waiting
  sleep_for_state (negsuc n) = set_at_self k.state p process_waiting

  -- The fields that the next call of `schedule` reads are left alone.
  sleep_for_frame :
      (timeout : ℤ)
      → ((sleep_for timeout p k).cur_process ≡ k.cur_process)
        × ((sleep_for timeout p k).lock_count ≡ k.lock_count)
        × ((sleep_for timeout p k).nice ≡ k.nice)
        × ((sleep_for timeout p k).wait_links ≡ k.wait_links)
        × ((sleep_for timeout p k).demand ≡ k.demand)
  unfolding sleep_for kwait ksleep
  sleep_for_frame (pos zero) = (refl, refl, refl, refl, refl)
  sleep_for_frame (pos (suc n)) = (refl, refl, refl, refl, refl)
  sleep_for_frame (negsuc n) = (refl, refl, refl, refl, refl)

-- The list that a process sleeps on, and the times of the sleepers then.
abbrev pub slot : ℤ → Kernel → ℕ
slot (pos zero) k = wait_list
slot (pos (suc n)) k = wheel_hash (add32 (suc n) k.jiffies)
slot (negsuc n) k = wait_list

abbrev pub alarms : ℤ → ℕ → Kernel → ℕ → ℕ
alarms (pos zero) p k = k.wakeup_jiffies
alarms (pos (suc n)) p k = set_at k.wakeup_jiffies p (add32 (suc n) k.jiffies)
alarms (negsuc n) p k = k.wakeup_jiffies

sleep_for-Rings :
    (timeout : ℤ) (p : ℕ) (k : Kernel) (tl : ℕ → List ℕ)
    → ((j : ℕ) → In p (tl j) → ⊥)
    → Rings k.sleep_links 513 tl
    → let i = slot timeout k in
      Rings (sleep_for timeout p k).sleep_links 513 (with_row tl i (p ∷ tl i))
unfolding sleep_for kwait ksleep
sleep_for-Rings (pos zero) p k tl out r =
    Rings-insert_front k.sleep_links 513 tl wait_list (omega arith) r p out
sleep_for-Rings (pos (suc n)) p k tl out r =
    Rings-insert_front k.sleep_links 513 tl (slot (pos (suc n)) k) (omega arith) r p out
sleep_for-Rings (negsuc n) p k tl out r =
    Rings-insert_front k.sleep_links 513 tl wait_list (omega arith) r p out

sleep_for-alarms :
    (timeout : ℤ) (p : ℕ) (k : Kernel) → (sleep_for timeout p k).wakeup_jiffies ≡ alarms timeout p k
unfolding sleep_for kwait ksleep
sleep_for-alarms (pos zero) p k = refl
sleep_for-alarms (pos (suc n)) p k = refl
sleep_for-alarms (negsuc n) p k = refl

sleep_for_queues :
    (timeout : ℤ) (p : ℕ) (k : Kernel)
    → ((sleep_for timeout p k).active_queue ≡ k.active_queue)
      × ((sleep_for timeout p k).expire_queue ≡ k.expire_queue)
unfolding sleep_for kwait ksleep
sleep_for_queues (pos zero) p k = (refl, refl)
sleep_for_queues (pos (suc n)) p k = (refl, refl)
sleep_for_queues (negsuc n) p k = (refl, refl)

unqueued-lock_count :
    (k : Kernel) (p r : ℕ) → CanLock k → (unqueued p k).lock_count r ≡ k.lock_count r
unfolding lock_task
unqueued-lock_count k p r c = elim (Bool-cases (r == k.cur_process)) [
  | inl b ↦
      rw
        (
          b,
          ==→eq r k.cur_process b,
          set_at_self k.lock_count k.cur_process (add32 (k.lock_count k.cur_process) 1),
        )
        (omega arith)
  | inr b ↦ rw b refl
]

-- `out_sched_queue(cur_process); ...; schedule();`
abbrev pub block : ℤ → Kernel → Run Kernel
block timeout k = do
  k₁ ← out_sched_queue k.cur_process k
  schedule (sleep_for timeout k.cur_process k₁)

-- The process that blocks.
module _ (k : Kernel) (t : ℕ → List ℕ) (i : ℕ) (xs ys : List ℕ) (timeout : ℤ) (c : CanLock k)
    (held : Parked k) (h : i < 32) (n : k.nice k.cur_process < 16)
    (e : t i ≡ xs ++ (k.cur_process ∷ ys)) (inv : SchedInv k t) where
  -- The kernel as the process leaves it, and as the next one finds it.
  abbrev pub parked : Kernel
  unfolding lock_task
  parked = sleep_for timeout k.cur_process (unqueued k.cur_process k)

  parked-lock_count : (r : ℕ) → parked.lock_count r ≡ k.lock_count r
  unfolding lock_task
  parked-lock_count r =
      rw ((sleep_for_frame (unqueued k.cur_process k) t k.cur_process timeout).1)
        (unqueued-lock_count k k.cur_process r c)

  parked-cur_process : parked.cur_process ≡ k.cur_process
  unfolding lock_task
  parked-cur_process = (sleep_for_frame (unqueued k.cur_process k) t k.cur_process timeout).0

  -- `block` returns in the process at the front of the lowest level, and the one that blocked
  -- stands on no level.
  pub block-Scheduled : Scheduled parked (block timeout k) (with_row t i (xs ++ ys)) (ticked parked)
  unfolding lock_task
  block-Scheduled =
      rw
        (out_sched_queue-ok k.cur_process k c
          (inv.runs i k.cur_process (rw e (In-middle xs k.cur_process ys))))
        (schedule-waiting parked (with_row t i (xs ++ ys))
          (rw (parked-cur_process, parked-lock_count k.cur_process) c)
          (λ p ne. rw (parked-lock_count p) (held p (rw (← parked-cur_process) ne)))
          (rw
            (
              parked-cur_process,
              (sleep_for_frame (unqueued k.cur_process k) t k.cur_process timeout).2,
            )
            n)
          (rw
            (parked-cur_process, sleep_for_state (unqueued k.cur_process k) t k.cur_process timeout)
            (omega arith))
          (sleep_for-SchedInv (unqueued k.cur_process k) (with_row t i (xs ++ ys)) k.cur_process
            timeout (removed-out k.sched_links 32 t i xs k.cur_process ys h e inv.rings)
            (unqueued-SchedInv k.cur_process k t i xs ys h n e inv)))

  -- The blocking objects are as the process left them, and the process waits.
  pub parked-objects :
      (parked.wait_links ≡ k.wait_links)
      × (parked.demand ≡ k.demand)
      × (parked.state k.cur_process ≡ process_waiting)
  unfolding lock_task
  parked-objects =
      let f = sleep_for_frame (unqueued k.cur_process k) t k.cur_process timeout in
      (f.3, f.4, sleep_for_state (unqueued k.cur_process k) t k.cur_process timeout)

  -- The process sleeps on its list, and the queues are where they were.
  pub parked-sleeps :
      (tl : ℕ → List ℕ)
      → ((j : ℕ) → In k.cur_process (tl j) → ⊥)
      → Rings k.sleep_links 513 tl
      → Rings parked.sleep_links 513
          (with_row tl (slot timeout k) (k.cur_process ∷ tl (slot timeout k)))
        × (parked.wakeup_jiffies ≡ alarms timeout k.cur_process k)
        × (parked.active_queue ≡ k.active_queue)
        × (parked.expire_queue ≡ k.expire_queue)
  unfolding lock_task
  parked-sleeps tl out r =
      let u = unqueued k.cur_process k in
      let same : slot timeout u ≡ slot timeout k = same_slot timeout in
      let times : alarms timeout k.cur_process u ≡ alarms timeout k.cur_process k =
        same_alarms timeout in
      let q = sleep_for_queues timeout k.cur_process u in
      (
        subst (λ j. Rings parked.sleep_links 513 (with_row tl j (k.cur_process ∷ tl j))) same
            (sleep_for-Rings timeout k.cur_process u tl out r),
        sleep_for-alarms timeout k.cur_process u ∙ times,
        q.0,
        q.1,
      )
    where
      same_slot : (n : ℤ) → slot n (unqueued k.cur_process k) ≡ slot n k
      same_slot (pos zero) = refl
      same_slot (pos (suc n)) = refl
      same_slot (negsuc n) = refl

      same_alarms :
          (n : ℤ) → alarms n k.cur_process (unqueued k.cur_process k) ≡ alarms n k.cur_process k
      same_alarms (pos zero) = refl
      same_alarms (pos (suc n)) = refl
      same_alarms (negsuc n) = refl

sys_tsleep-block : (timeout : ℕ) (k : Kernel) → sys_tsleep timeout k ≡ block (pos timeout) k
unfolding sys_tsleep sleep_for
sys_tsleep-block zero k = refl
sys_tsleep-block (suc n) k = rw (ne→== (suc n) 0 (omega arith)) refl

-- A process on a level that sleeps leaves it, waits, and the first process of the lowest level in
-- use goes on.
pub sys_tsleep-Scheduled :
    (k : Kernel) (t : ℕ → List ℕ) (i : ℕ) (xs ys : List ℕ) (timeout : ℕ) (c : CanLock k)
    (held : Parked k) (h : i < 32) (n : k.nice k.cur_process < 16)
    (e : t i ≡ xs ++ (k.cur_process ∷ ys)) (inv : SchedInv k t)
    → Scheduled
        (parked k t i xs ys (pos timeout) c held h n e inv)
        (sys_tsleep timeout k)
        (with_row t i (xs ++ ys))
        (ticked (parked k t i xs ys (pos timeout) c held h n e inv))
sys_tsleep-Scheduled k t i xs ys timeout c held h n e inv =
    rw (sys_tsleep-block timeout k) (block-Scheduled k t i xs ys (pos timeout) c held h n e inv)
