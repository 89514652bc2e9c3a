-- ===== src/Tests/Ticks.antt =====
-- A tick of the timer, at a concrete input.
use x_os_tmp.Base.{◌≡◌, refl, arith, ok, inl}
use x_os_tmp.Kernel.{Kernel, lock_task}
use x_os_tmp.Wait.{do_timer}
use x_os_tmp.Wait.Wake.{Queues}
use x_os_tmp.Wait.Timer.{Ticked, do_timer-Ticked}
use x_os_tmp.Tests.Kernels.{
  links5, rows5, rings5, In-rows5, running1, rows1, running1-SchedInv, running1-CanLock,
  running1-Parked,
}

-- Process 1 runs, and process 5 sleeps in the slot 201, since the time 100; it is 200.
abbrev napping : Kernel
napping = record running1 { sleep_links = links5 201 }

napping-Queues : Queues napping rows1 (rows5 201)
unfolding lock_task
napping-Queues =
    let inv = running1-SchedInv in
    record {
      sched = record {
        rings = inv.rings;
        runs = inv.runs;
        placed = inv.placed;
        counted = inv.counted;
        active = inv.active;
        expire = inv.expire;
      };
      sleep = rings5 513 201 (omega arith);
      asleep = λ j p m. rw (In-rows5 201 j p m) refl;
      niced = λ p. omega arith;
      can_lock = running1-CanLock;
    }

do_timer-Ticked_example :
    (k' : Kernel) × (do_timer 2 2 napping ≡ ok k') × Ticked napping rows1 (rows5 201) k'
unfolding lock_task
do_timer-Ticked_example =
    do_timer-Ticked 2 2 napping rows1 (rows5 201) 3 (omega arith) (omega arith) (omega arith)
      running1-Parked (omega arith) (inl refl) refl (omega arith) napping-Queues
