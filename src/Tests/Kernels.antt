-- ===== src/Tests/Kernels.antt =====
-- Concrete kernels for the tests: one where nothing is queued, and others got from it by the
-- operations of the kernel.
use x_os_tmp.Base.{
  ℕ, ◌<◌, ◌≡◌, refl, List, [], ◌∷◌, ◌==◌, false, if◌then◌else◌, arith, Bool-cases, inl, inr, ne→==,
  In, sym,
}
use x_os_tmp.CircularList.{head, node, Links, circular_list_insert}
use x_os_tmp.CircularList.Seg.{Ring}
use x_os_tmp.CircularList.Rings.{Rings, with_row, Rings-insert_front, Ring-insert_front}
use x_os_tmp.Kernel.{Kernel, process_running, process_waiting, lock_task}
use x_os_tmp.Kernel.Lock.{CanLock}
use x_os_tmp.Sched.Count.{total}
use x_os_tmp.Sched.Queues.{SchedInv, queued, queued-SchedInv}
use x_os_tmp.Sched.Schedule.{Parked}
use x_os_tmp.Wait.Wake.{Queues, Asleep}

abbrev pub no_rows : ℕ → List ℕ
no_rows i = []

abbrev pub unlinked_all : Links
unlinked_all = record { next = λ a. a; pre = λ a. a }

pub no-Rings : (n : ℕ) → Rings unlinked_all n no_rows
no-Rings n = record {
  ring = λ i h. record { seg = (refl, refl); distinct = tt };
  apart = λ i j p a b. absurd a;
}

-- Process 5 on list i.
abbrev pub links5 : ℕ → Links
links5 i = circular_list_insert (head i) (node 5) unlinked_all

abbrev pub rows5 : ℕ → ℕ → List ℕ
rows5 i = with_row no_rows i (5 ∷ [])

pub rings5 : (n i : ℕ) → i < n → Rings (links5 i) n (rows5 i)
rings5 n i h = Rings-insert_front unlinked_all n no_rows i h (no-Rings n) 5 (λ j m. m)

pub ring5 : (i : ℕ) → Ring (links5 i) i (5 ∷ [])
ring5 i = Ring-insert_front unlinked_all i 5 [] tt (record { seg = (refl, refl); distinct = tt })

-- Nothing queued; process 5 waits, process 1 has the processor, every process holds its lock.
abbrev pub idle : Kernel
idle = record {
  nice = λ p. 3;
  state = λ p. if p == 5 then process_waiting else process_running;
  sched_queue = λ p. 0;
  lock_count = λ p. 1;
  rest_time = λ p. 1;
  wakeup_jiffies = λ p. 100;
  demand = λ p. 2;
  last_errno = λ p. 0;
  sub_errno = λ p. 0;
  sched_links = unlinked_all;
  sleep_links = unlinked_all;
  wait_links = unlinked_all;
  active_queue = 0;
  expire_queue = 1;
  queue_count = λ q. 0;
  cur_process = 1;
  jiffies = 200;
  surplus = λ s. 0;
  interrupts = false;
}

pub idle-SchedInv : SchedInv idle no_rows
unfolding total
idle-SchedInv = record {
  rings = no-Rings 32;
  runs = λ i p m. absurd m;
  placed = λ i p m. absurd m;
  counted = λ q h. refl;
  active = omega arith;
  expire = omega arith;
}

-- Process 5 asleep on list i, and waiting for the blocking object 0.
abbrev pub asleep5 : ℕ → Kernel
asleep5 i = record idle { sleep_links = links5 i; wait_links = links5 0 }

pub In-rows5 : (i j p : ℕ) → In p (rows5 i j) → p ≡ 5
In-rows5 i j p m = elim (Bool-cases (j == i)) [
  | inl e ↦ elim (rw e at m) [ inl w ↦ sym w | inr z ↦ absurd z ]
  | inr e ↦ absurd (rw e at m)
]

pub asleep5-Queues : (i : ℕ) → i < 513 → Queues (asleep5 i) no_rows (rows5 i)
asleep5-Queues i h = record {
  sched = record {
    rings = idle-SchedInv.rings;
    runs = idle-SchedInv.runs;
    placed = idle-SchedInv.placed;
    counted = idle-SchedInv.counted;
    active = idle-SchedInv.active;
    expire = idle-SchedInv.expire;
  };
  sleep = rings5 513 i h;
  asleep = λ j p m. rw (In-rows5 i j p m) refl;
  niced = λ p. omega arith;
  can_lock = omega arith;
}

pub asleep5-Asleep : Asleep (rows5 512) 5
asleep5-Asleep = (512, omega arith, inl refl)

-- Process 1 on its level, after `in_sched_queue`.
abbrev pub running1 : Kernel
unfolding lock_task
running1 = queued 1 idle

abbrev pub rows1 : ℕ → List ℕ
rows1 = with_row no_rows 3 (1 ∷ [])

pub running1-SchedInv : SchedInv running1 rows1
unfolding lock_task
running1-SchedInv = queued-SchedInv 1 idle no_rows (omega arith) (λ j m. m) idle-SchedInv

pub running1-CanLock : CanLock running1
unfolding lock_task
running1-CanLock = omega arith

pub running1-Parked : Parked running1
unfolding lock_task
running1-Parked p ne = rw (ne→== p 1 ne) (omega arith)
