-- ===== src/Lib.antt =====
-- The kernel x-os: its scheduler, its blocking objects, its physical pages, its screen and its
-- file system calls.
--
-- The scheduler (src/sched.c) keeps each process that can run on one of the 16 levels of one of
-- two queues. A process that sleeps is on a list of the time wheel or on the wait list
-- (src/wait.c). The semaphores, mutexes and condition variables (src/ksemaphore.c, src/kmutex.c,
-- src/kcond.c) keep their waiters in lists of their own and call the two for every change. All of
-- these lists are the intrusive circular list of src/circular_list.c, and the counter of
-- src/task_locker.c turns the interrupts off around the changes. The free pages of src/mem.c are
-- counted by a semaphore. The screen of src/tty0.c is a driver of the table in src/vfs.c. The
-- trees of src/rb_tree.c hold the processes by pid and the block buffers by driver and number; a
-- tree of the model is what the pointers of a store stand for. The buddy allocator of src/buddy.c
-- keeps the addresses of the kernel.
--
-- Files, and what they model:
--   Base           numbers, tests, runs that may panic, lists; no code of the kernel
--   CircularList   src/circular_list.c, inc/circular_list.h
--   Kernel         the state of inc/sched.h, and src/task_locker.c
--   Sched          src/sched.c: schedule, in_sched_queue, out_sched_queue, init_schedule_module
--   Process        sys_fork of src/sched.c, with schedulecpy of src/sched.s
--   Wait           src/wait.c, and do_timer of src/sched.c
--   Semaphore      src/ksemaphore.c
--   Mutex          src/kmutex.c
--   Cond           src/kcond.c
--   Memory         src/mem.c, inc/mem.h
--   Pages          get_pages, free_pages and get_one_page of src/mem.c, on Memory and Buddy
--   Paging         the page faults of src/mem.c, and src/exec.c
--   Slab           src/slab.c, inc/slab.h
--   Tty            src/tty0.c, inc/tty0.h
--   Printk         src/printk.c
--   Vfs            src/vfs.c, inc/vfs.h
--   BlockDriver    src/block_driver.c, inc/block_driver.h
--   BlockBuffer    src/block_buffer.c, inc/block_buffer.h
--   Syscall        src/syscall.c
--   Interrupt      src/interrupt.c
--   MinHeap        src/min_heap.c
--   LevelBitmap    src/level_bitmap.c, inc/level_bitmap.h
--   Buddy          src/buddy.c, inc/buddy.h
--   RbTree         src/rb_tree.c, inc/rb_tree.h, src/pcinfo_rb_tree.c, src/blkbuffer_rb_tree.c
--   Tests          the theorems at concrete inputs
--
-- State and operations keep the names of the source. A process is a number, and a field of its
-- structure is a function of that number; an assignment changes the function at one place. A
-- list node is the head number i or the node inside structure number p, so that parentof is a match.
-- Numbers of w bits keep their wrap around 2^w written out. A call gives `ok`, or `panic` where a
-- kassert fails, the processor faults or an array is left, or `out_of_fuel`. A call that blocks is
-- in two parts: what runs up to schedule, whose result is the state in which the next process goes
-- on, and, with the name _resumed, what the process does when it comes back.
--
-- Fuel: a loop over a list has fuel, and the theorems ask for more than the length of the list. A
-- tick of the timer has fuel for its rounds and for its list. kgetpersistedmem needs fuel above
-- the number of free pages. The screen has fuel 2 for scrolling, since a byte moves the cursor by
-- at most one line. A numeral has fuel 16 for its 10 digits. The buddy allocator goes up at most
-- 15 levels. A search or an insertion in a tree needs fuel above the number of its nodes.
--
-- Not modelled: the assembly files and the switch of the stack (schedule goes on in the chosen
-- process), but for the copy of a process by schedulecpy, and the boot sequence. What a driver or a
-- system call does is a parameter of Vfs, BlockDriver and Syscall. No theorem is about
-- rb_tree_remove, free_pages, init_mem_module, process_cow, the copy of a table of descriptors that grows,
-- get_block_buffer, and the whole of sys_fork: these are definitions.
pub mod Base
pub mod Buddy
pub mod CircularList
pub mod Kernel
pub mod Sched
pub mod Process
pub mod Wait
pub mod Semaphore
pub mod Slab
pub mod Mutex
pub mod Cond
pub mod Memory
pub mod Pages
pub mod Paging
pub mod Tty
pub mod Printk
pub mod Vfs
pub mod Tests
pub mod BlockDriver
pub mod BlockBuffer
pub mod Syscall
pub mod Interrupt
pub mod MinHeap
pub mod LevelBitmap
pub mod RbTree
