-- ===== src/Tests/Family.antt =====
-- A new process, at a concrete input.
use x_os_tmp.Base.{ℕ, ◌≡◌, refl, ◌==◌, ◌≢◌, if◌then◌else◌, arith, Bool-cases, inl, inr, ok, In}
use x_os_tmp.Kernel.{lock_task}
use x_os_tmp.Process.{Machine, kernel_of, with_kernel, copy_process}
use x_os_tmp.Process.Copy.{copy_process-SchedInv}
use x_os_tmp.Sched.Queues.{SchedInv}
use x_os_tmp.Vfs.Fds.{FdTable, blank}
use x_os_tmp.Tests.Areas.{fresh}
use x_os_tmp.Tests.Devices.{one_page}
use x_os_tmp.Tests.Kernels.{running1, rows1, running1-SchedInv}

abbrev no_files : FdTable
no_files = record {
  fd_pagesize = 0;
  fds = λ i. blank;
  fd_append = 0;
  appended = λ i. blank;
  fd_size = 0;
  fd_capacity = 8;
  level_bitmap = record { bitmaps = λ i. 255; max_level = 0 };
}

-- Process 1 runs, and its new process is at the address 0xc0002000.
abbrev forking : Machine
forking = record {
  files = record {
    pages = record { memory = record one_page { kernel = running1 }; buddy = fresh };
    open_count = λ y. 0;
  };
  fd_info = λ p. no_files;
  pid = λ p. p;
  parent = λ p. 0;
  brother = λ p. 0;
  son = λ p. 0;
  esp = λ p. 0;
  catalog_table_v = λ p. 0;
  catalog_table_p = λ p. 0;
  catalog = λ p i. 0;
  last_pid = 100;
}

rows1-only : (j : ℕ) → In 0xc0002000 (rows1 j) → ⊥
rows1-only j m = elim (Bool-cases (j == 3)) [
  | inl e ↦ elim (rw e at m) [ inl w ↦ omega (arith, w) | inr z ↦ z ]
  | inr e ↦ rw e at m
]

-- Process 1 runs without a lock.
abbrev unlocked : Machine
unlocked = with_kernel (record running1 { lock_count = λ p. if p == 1 then 0 else 1 }) forking

unlocked-SchedInv : SchedInv (kernel_of unlocked) rows1
unfolding lock_task
unlocked-SchedInv =
    let inv = running1-SchedInv in
    record {
      rings = inv.rings;
      runs = inv.runs;
      placed = inv.placed;
      counted = inv.counted;
      active = inv.active;
      expire = inv.expire;
    }

copy_process-SchedInv_example :
    (m' : Machine) × (copy_process 0x100 0xc0002000 unlocked ≡ ok m')
    × (let k = kernel_of unlocked in
        let k' = kernel_of m' in
        SchedInv k' rows1
        × (k'.cur_process ≡ 1)
        × (k'.lock_count 0xc0002000 ≡ 1)
        × ((p : ℕ) → p ≢ 0xc0002000 → k'.lock_count p ≡ k.lock_count p)
        × (k'.nice 0xc0002000 ≡ k.nice 1)
        × (k'.rest_time 0xc0002000 ≡ k.rest_time 1)
        × (k'.state 0xc0002000 ≡ k.state 1)
        × (m'.fd_info 0xc0002000 ≡ no_files))
unfolding lock_task
copy_process-SchedInv_example =
    copy_process-SchedInv 0x100 0xc0002000 unlocked rows1 refl (omega arith) rows1-only
      unlocked-SchedInv
