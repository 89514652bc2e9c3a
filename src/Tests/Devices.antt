-- ===== src/Tests/Devices.antt =====
-- The theorems on memory, the screen, the numerals and the drivers, at concrete inputs.
use x_os_tmp.Base.{
  ◌==◌, if◌then◌else◌, ◌*◌, panic, ℕ, ◌+◌, ◌≡◌, refl, List, [], ◌∷◌, ◌++◌, arith, ok, pos, some,
  none, All,
}
use x_os_tmp.Kernel.{Kernel}
use x_os_tmp.Memory.{Memory, null, desc, init_mem_desc, getonefreepage, getonefreepage_unblocking}
use x_os_tmp.Memory.Init.{range, init_mem_desc-FreeInv}
use x_os_tmp.Memory.{kgetpersistedmem}
use x_os_tmp.Memory.Persisted.{Grown, kgetpersistedmem-Grown}
use x_os_tmp.Memory.FreeList.{FreeInv, Taken, getonefreepage-takes}
use x_os_tmp.Tty.{Tty, normal, tty0_write}
use x_os_tmp.Tty.Bounds.{OnScreen, tty0_write-bounds}
use x_os_tmp.Printk.{printint}
use x_os_tmp.Printk.Decimal.{IsDigit, Canonical, value, printint-value}
use x_os_tmp.Vfs.{Env, Driver, Vfs}
use x_os_tmp.Vfs.Register.{AllComplete}
use x_os_tmp.BlockDriver.{BlockDriver}
use x_os_tmp.Syscall.{Callback, Syscalls, init_syscall_module, t_sys_call}
use x_os_tmp.Syscall.Table.{init_syscall_module-t_sys_call}
use x_os_tmp.MinHeap.{Heap, min_heap_push}
use x_os_tmp.MinHeap.Order.{Heaped}
use x_os_tmp.MinHeap.Contents.{occurrences, once, min_heap_push-inserts}
use x_os_tmp.Interrupt.{Idt, setup_intr_desc, setup_trap_desc}
use x_os_tmp.Interrupt.Gate.{handler, privilege, kind, setup_desc-gate}
use x_os_tmp.Tests.Kernels.{no-Rings, idle}

-- One page, number 7, is free; page 9 is in use.
abbrev pub one_page : Memory
one_page = record {
  kernel = record idle { surplus = λ s. 1 };
  active = λ i. 0;
  share = λ i. 0;
  flags = λ i. 1;
  unused = λ i. 0;
  point = λ i. null;
  free_head = desc 7;
  page_table = λ i. 0;
  end_of_kernel = 0xc0300000;
  capacity = 0xc0300000;
  cur_mem_pos = 0xffffe000;
}

pub one_page-FreeInv : FreeInv one_page (7 ∷ [])
one_page-FreeInv = record {
  chain = (refl, refl);
  distinct = (tt, tt);
  counted = refl;
  small = omega arith;
  nobody = (no-Rings 1).ring 0 (omega arith);
}

init_mem_desc-FreeInv_example :
    (m' : Memory) × (init_mem_desc 1025 one_page ≡ ok m') × FreeInv m' (range 0 160 ++ range 1024 1)
init_mem_desc-FreeInv_example = init_mem_desc-FreeInv 1025 one_page refl (omega arith) (omega arith)

getonefreepage-takes_example :
    (m' : Memory) × (getonefreepage 1 3 one_page ≡ ok (some 7, m'))
    × (getonefreepage_unblocking 1 3 one_page ≡ ok (some 7, m'))
    × FreeInv m' []
    × Taken 7 1 3 one_page m'
getonefreepage-takes_example = getonefreepage-takes one_page 7 [] 1 3 one_page-FreeInv

kgetpersistedmem-Grown_example :
    (m' : Memory) × (kgetpersistedmem 2 4000 one_page ≡ ok (0xc0300000, m'))
    × Grown 4000 one_page m' (7 ∷ [])
kgetpersistedmem-Grown_example =
    kgetpersistedmem-Grown 2 4000 one_page (7 ∷ []) one_page-FreeInv (omega arith) (omega arith)
      (omega arith) (omega arith) (omega arith) (omega arith)

abbrev screen : Tty
screen = record { pos = 78; color = 7; state = normal; screen = λ a. 0; ports = [] }

tty0_write-bounds_example :
    (t' : Tty) × (k' : Kernel) × (tty0_write (104 ∷ 10 ∷ []) screen idle ≡ ok (t', k'))
    × OnScreen screen t'
tty0_write-bounds_example =
    tty0_write-bounds (104 ∷ 10 ∷ []) screen idle (omega arith) (omega arith)

printint-value_example :
    (s : List ℕ) × (printint 4294967291 ≡ ok (b'-' ∷ s))
    × (value s ≡ 5)
    × All IsDigit s
    × Canonical s
printint-value_example = printint-value 4294967291 (omega arith)

-- A driver that only writes, and answers the length.
abbrev sink : Driver ℕ
sink = record {
  open_child = none;
  read = none;
  write = some (λ inode buf len env. (pos len, record env { world = env.world + len }));
  fsync = none;
}

abbrev pub no_drivers : Vfs ℕ
no_drivers = record { drivers = λ n. none; main_driver = λ inode. 2 }

no_drivers-AllComplete : AllComplete no_drivers
no_drivers-AllComplete = record { complete = λ n d e. cc }

abbrev pub env0 : Env ℕ
env0 = record { last_errno = 0; world = 0 }

abbrev doubler : BlockDriver ℕ
doubler = record {
  read_blocks = some (λ start count timeout w. (pos count, 2 * w));
  write_blocks = none;
  max_read = 8;
  max_write = 0;
}

-- The call number n, which notes its number.
abbrev noting : ℕ → Callback ℕ
noting n a b c w = (a, n)

init_syscall_module-t_sys_call_example :
    (t : Syscalls ℕ) × (init_syscall_module (noting 1) (noting 2) (noting 3) (noting 16) (noting 17)
      ≡ ok t)
    × (t_sys_call t (pos 16) (pos 5) (pos 6) (pos 7) 0 ≡ ok (pos 5, 16))
    × (t_sys_call t (pos 256) (pos 5) (pos 6) (pos 7) 0 ≡ panic)
init_syscall_module-t_sys_call_example =
    init_syscall_module-t_sys_call (noting 1) (noting 2) (noting 3) (noting 16) (noting 17) 16
      (pos 5) (pos 6) (pos 7) 0 (omega arith)

abbrev no_gates : Idt
no_gates i = record { l_base = 0; selector = 0; type = 0; h_base = 0 }

setup_desc-gate_example :
    (handler (setup_intr_desc 0x80 0xc0101234 3 no_gates 0x80) ≡ 0xc0101234)
    × (handler (setup_trap_desc 0x80 0xc0101234 3 no_gates 0x80) ≡ 0xc0101234)
    × (privilege (setup_intr_desc 0x80 0xc0101234 3 no_gates 0x80) ≡ 3)
    × (privilege (setup_trap_desc 0x80 0xc0101234 3 no_gates 0x80) ≡ 3)
    × (kind (setup_intr_desc 0x80 0xc0101234 3 no_gates 0x80) ≡ 14)
    × (kind (setup_trap_desc 0x80 0xc0101234 3 no_gates 0x80) ≡ 15)
    × (setup_intr_desc 0x80 0xc0101234 3 no_gates 0x20 ≡ no_gates 0x20)
    × (setup_trap_desc 0x80 0xc0101234 3 no_gates 0x20 ≡ no_gates 0x20)
setup_desc-gate_example =
    setup_desc-gate 0x80 0x20 0xc0101234 3 no_gates (omega arith) (omega arith) (omega arith)

-- The heap of 3 and 5.
abbrev two_ints : Heap
two_ints i = if i == 0 then 2 else if i == 1 then 3 else 5

two_ints-Heaped : Heaped 2 two_ints
two_ints-Heaped j lo hi = rw (the_last) (omega arith)
  where
    the_last : j ≡ 2
    the_last = omega arith

min_heap_push-inserts_example :
    (h' : Heap) × (min_heap_push 4 1 two_ints ≡ ok h')
    × Heaped 3 h'
    × (h' 0 ≡ 3)
    × ((v : ℕ) → occurrences v 3 h' ≡ occurrences v 2 two_ints + once v 1)
min_heap_push-inserts_example =
    min_heap_push-inserts 4 1 two_ints (omega arith) (omega arith) two_ints-Heaped
