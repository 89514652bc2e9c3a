-- ===== src/Tests/Blocking.antt =====
-- The theorems on the scheduler and the blocking objects, at concrete kernels.
use x_os_tmp.Base.{if◌then◌else◌, ltb, ℕ, ◌≡◌, refl, List, [], ◌∷◌, arith, ok, panic, pos}
use x_os_tmp.CircularList.{head, node, circular_list_insert}
use x_os_tmp.CircularList.Seg.{Ring}
use x_os_tmp.CircularList.Rings.{Rings, with_row, Ring-insert_front}
use x_os_tmp.Kernel.{Kernel, lock_task, process1}
use x_os_tmp.Sched.{level, schedule, pick_from}
use x_os_tmp.Sched.Pick.{pick-first_ready}
use x_os_tmp.Sched.Queues.{SchedInv}
use x_os_tmp.Sched.Joined.{Joined}
use x_os_tmp.Sched.Schedule.{Scheduled, requeued, time_left, schedule-running}
use x_os_tmp.Wait.Wake.{Queues, Queues-objects, Untouched, wake, wake-Queues}
use x_os_tmp.Semaphore.{ksemaphore_up}
use x_os_tmp.Semaphore.Up.{UpDone, ksemaphore_up-serves}
use x_os_tmp.Mutex.{kmutex_lock_resumed, kmutex_unlock}
use x_os_tmp.Mutex.Laws.{HandsOver, kmutex_unlock-HandsOver, kmutex_lock_resumed-unlock_panics}
use x_os_tmp.Cond.{kcond_broadcast}
use x_os_tmp.Sched.{init_schedule_module}
use x_os_tmp.Sched.Init.{no_process, init_schedule_module-SchedInv}
use x_os_tmp.Cond.Laws.{Broadcast, BroadcastRows, kcond_broadcast-Broadcast}
use x_os_tmp.Tests.Kernels.{
  no_rows, no-Rings, links5, rows5, ring5, idle, asleep5, asleep5-Queues, asleep5-Asleep, running1,
  rows1, running1-SchedInv, running1-CanLock, running1-Parked,
}

-- A wake of the process 5, with two units for its demand of two.
ksemaphore_up-serves_example :
    UpDone 0 3 (5 ∷ []) (asleep5 512) no_rows (rows5 512) (ksemaphore_up 2 0 3 (asleep5 512))
ksemaphore_up-serves_example =
    ksemaphore_up-serves 2 0 3 (5 ∷ []) (asleep5 512) no_rows (rows5 512) (omega arith)
      (omega arith) (asleep5-Queues 512 (omega arith)) (ring5 0) (asleep5-Asleep, tt)

abbrev stocked : Kernel
stocked = record idle { surplus = λ s. 7 }

-- Process 5 holds the mutex 0 and has the processor; nobody else waits for it.
abbrev holder5 : Kernel
holder5 = record idle { wait_links = links5 0; cur_process = 5; state = λ p. 1 }

kmutex_lock_resumed-unlock_panics_example :
    (k' : Kernel) × (kmutex_lock_resumed 2 0 holder5 ≡ ok (pos 0, k'))
    × Ring k'.wait_links 0 []
    × (kmutex_unlock 2 0 k' ≡ panic)
kmutex_lock_resumed-unlock_panics_example =
    kmutex_lock_resumed-unlock_panics 2 0 [] holder5 (omega arith) (ring5 0)

-- Process 1 holds the mutex 0, and process 5 waits for it.
abbrev holder1 : Kernel
holder1 = record (asleep5 512) { wait_links = circular_list_insert (head 0) (node 1) (links5 0) }

kmutex_unlock-HandsOver_example : HandsOver 3 0 (5 ∷ []) holder1 no_rows (rows5 512)
kmutex_unlock-HandsOver_example =
    kmutex_unlock-HandsOver 3 0 (5 ∷ []) holder1 no_rows (rows5 512) (omega arith)
      (Queues-objects (asleep5 512) no_rows (rows5 512) _ idle.surplus idle.demand
        (asleep5-Queues 512 (omega arith)))
      (Ring-insert_front (links5 0) 0 1 (5 ∷ []) (omega arith, tt) (ring5 0)) (asleep5-Asleep, tt)

kcond_broadcast-Broadcast_example :
    (k' : Kernel) × (kcond_broadcast 2 0 (asleep5 512) ≡ ok (1, k'))
    × Broadcast 0 (5 ∷ []) (asleep5 512) k'
    × BroadcastRows (5 ∷ []) (asleep5 512) no_rows (rows5 512) k'
kcond_broadcast-Broadcast_example =
    kcond_broadcast-Broadcast 2 0 (5 ∷ []) (asleep5 512) no_rows (rows5 512) (omega arith)
      (asleep5-Queues 512 (omega arith)) (ring5 0) (asleep5-Asleep, tt)

wake-Queues_example :
    (k' : Kernel) × (ts' : ℕ → List ℕ) × (wake 5 (asleep5 512) ≡ ok k')
    × Queues k' ts' (with_row (rows5 512) 512 [])
    × Untouched 5 (asleep5 512) k'
    × (k'.state 5 ≡ 1)
    × Joined (5 ∷ []) (asleep5 512) no_rows ts'
wake-Queues_example =
    wake-Queues (asleep5 512) no_rows (rows5 512) 5 (asleep5-Queues 512 (omega arith)) 512
      (omega arith) [] [] refl

pick-first_ready_example : pick_from 16 process1 idle ≡ 1
pick-first_ready_example =
    pick-first_ready idle no_rows (λ j h. (no-Rings 16).ring (level 0 j) (omega arith))

schedule-running_example :
    Scheduled running1 (schedule running1) (requeued running1 rows1 3 [] []) (time_left running1)
unfolding lock_task
schedule-running_example =
    schedule-running running1 rows1 3 [] [] running1-CanLock running1-Parked (omega arith)
      (omega arith) refl refl (omega arith) running1-SchedInv

init_schedule_module-SchedInv_example :
    (k' : Kernel) × (init_schedule_module idle ≡ ok k')
    × SchedInv k'
        (with_row no_process (level (if ltb 0 (idle.rest_time 1) then 0 else 1) 3) (1 ∷ []))
init_schedule_module-SchedInv_example =
    init_schedule_module-SchedInv idle (omega arith) (omega arith)
