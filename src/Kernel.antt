-- ===== src/Kernel.antt =====
-- inc/sched.h, src/sched.c, src/task_locker.c and inc/wait.h: the state that the scheduler, the
-- sleep queues and the blocking objects share.
-- A `struct process_info_t` is a number, and each of its fields is a function of that number, so
-- that an assignment to a field is a change of one function at one place.
pub mod Lock
use x_os_tmp.Base.{
  ℕ, ◌+◌, ◌-◌, ◌*◌, ◌%◌, ◌^◌, Bool, true, false, ◌==◌, ltb, if◌then◌else◌, Run, ok, panic, ◌>>=◌,
  ◌>>◌, kassert, set_at,
}
use x_os_tmp.CircularList.{Links}

-- `enum { PROCESS_RUNNING, PROCESS_WAITING }`
abbrev pub process_running : ℕ
process_running = 1

abbrev pub process_waiting : ℕ
process_waiting = 2

-- `SCHED_LEVEL_SIZE`
abbrev pub sched_level_size : ℕ
sched_level_size = 16

-- The number of `process1page.process_info`.
abbrev pub process1 : ℕ
process1 = 1

abbrev pub eagain : ℕ
eagain = 11

abbrev pub word : ℕ
word = 2 ^ 32

-- `x + y` and `x - y` of `uint32_t` and `size_t`.
abbrev pub add32 : ℕ → ℕ → ℕ
add32 a b = (a + b) % 2 ^ 32

abbrev pub sub32 : ℕ → ℕ → ℕ
sub32 a b = (a + 2 ^ 32 - b) % 2 ^ 32

-- `x < y` of `long`, for the bit patterns of x and y.
abbrev pub long_lt : ℕ → ℕ → Bool
long_lt a b = ltb ((a + 2 ^ 31) % 2 ^ 32) ((b + 2 ^ 31) % 2 ^ 32)

pub record Kernel : Type 0 where
  -- the fields of `struct process_info_t`
  pub nice : ℕ → ℕ
  pub state : ℕ → ℕ
  pub sched_queue : ℕ → ℕ
  pub lock_count : ℕ → ℕ
  pub rest_time : ℕ → ℕ
  pub wakeup_jiffies : ℕ → ℕ
  pub demand : ℕ → ℕ
  pub last_errno : ℕ → ℕ
  pub sub_errno : ℕ → ℕ
  -- `sched_node`s with the 32 heads of the two queues; `sleep_info.node`s with the heads of the
  -- time wheel and of the wait list; `waitlist_node.node`s with the heads of the blocking objects
  pub sched_links : Links
  pub sleep_links : Links
  pub wait_links : Links
  -- `sched_queue1` and `sched_queue2` are the queues 0 and 1
  pub active_queue : ℕ
  pub expire_queue : ℕ
  pub queue_count : ℕ → ℕ
  pub cur_process : ℕ
  pub jiffies : ℕ
  -- `surplus` of the semaphore number s
  pub surplus : ℕ → ℕ
  -- the interrupt flag of the processor, which `_cli` clears and `_sti` sets
  pub interrupts : Bool

unfoldable pub lock_task : Kernel → Kernel
lock_task k = record k {
  interrupts = if k.lock_count k.cur_process == 0 then false else k.interrupts;
  lock_count = set_at k.lock_count k.cur_process (add32 (k.lock_count k.cur_process) 1);
}

unfoldable pub unlock_task : Kernel → Run Kernel
unlock_task k = do
  kassert (ltb 0 (k.lock_count k.cur_process))
  let left = sub32 (k.lock_count k.cur_process) 1
  ok (record k {
    lock_count = set_at k.lock_count k.cur_process left;
    interrupts = if left == 0 then true else k.interrupts;
  })

unfoldable pub v_lock_task : Kernel → Kernel
v_lock_task k = record k {
  lock_count = set_at k.lock_count k.cur_process (add32 (k.lock_count k.cur_process) 1);
}

unfoldable pub v_unlock_task : Kernel → Kernel
v_unlock_task k = record k {
  lock_count = set_at k.lock_count k.cur_process (sub32 (k.lock_count k.cur_process) 1);
}

unfoldable pub get_locker_count : Kernel → ℕ
get_locker_count k = k.lock_count k.cur_process

unfoldable pub set_locker_count : ℕ → Kernel → Kernel
set_locker_count count k = record k { lock_count = set_at k.lock_count k.cur_process count }
