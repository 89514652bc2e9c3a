-- ===== src/Wait.antt =====
-- src/wait.c: the wait list, the time wheel, and the processes whose time has come; and the part
-- of `do_timer` (src/sched.c) that wakes them.
pub mod Collect
pub mod Ready
pub mod Wake
pub mod Block
pub mod Sorted
pub mod Admit
pub mod Tick
pub mod Timer
use x_os_tmp.Base.{
  ℕ, zero, suc, ◌+◌, ◌%◌, ◌^◌, Bool, true, false, List, [], ◌∷◌, ◌++◌, ◌==◌, ltb, if◌then◌else◌,
  Run, ok, out_of_fuel, ◌>>=◌, ◌>>◌, kassert, set_at, length, ℤ, pos, negsuc,
}
use x_os_tmp.CircularList.{
  Ref, head, node, ref_eq, Links, circular_list_init, circular_list_insert, circular_list_remove,
}
use x_os_tmp.Kernel.{Kernel, process_waiting, add32, long_lt, v_lock_task}
use x_os_tmp.Sched.{parentof, in_sched_queue, out_sched_queue, schedule}

abbrev pub wheel_size : ℕ
wheel_size = 512

-- `WHEEL_HASH(time)`: `time & 511`.
abbrev pub wheel_hash : ℕ → ℕ
wheel_hash time = time % 512

-- The lists 0 to 511 are the time wheel, and 512 is `wait_list_head`.
abbrev pub wait_list : ℕ
wait_list = 512

-- `for(i = 0; i < n; ++i) circular_list_init(heads + i)`
pub init_heads : ℕ → Links → Links
init_heads zero l = l
init_heads (suc n) l = circular_list_init (head n) (init_heads n l)

pub init_wait_module : Kernel → Kernel
unfolding init_heads
init_wait_module k = record k {
  sleep_links = circular_list_init (head wait_list) (init_heads wheel_size k.sleep_links);
}

unfoldable pub kwait : ℕ → Kernel → Kernel
kwait p k = record k {
  state = set_at k.state p process_waiting;
  sleep_links = circular_list_insert (head wait_list) (node p) k.sleep_links;
}

unfoldable pub kwakeup : ℕ → Kernel → Run Kernel
kwakeup p k = do
  kassert (k.state p == process_waiting)
  ok (record k { sleep_links = circular_list_remove (node p) k.sleep_links })

unfoldable pub ksleep : ℕ → ℕ → Kernel → Kernel
ksleep p tick k =
    let time = add32 tick k.jiffies in
    record k {
      state = set_at k.state p process_waiting;
      wakeup_jiffies = set_at k.wakeup_jiffies p time;
      sleep_links = circular_list_insert (head (wheel_hash time)) (node p) k.sleep_links;
    }

-- `if(timeout > 0) ksleep(...) else kwait(...)`
unfoldable pub sleep_for : ℤ → ℕ → Kernel → Kernel
sleep_for (pos zero) p k = kwait p k
sleep_for (pos (suc n)) p k = ksleep p (suc n) k
sleep_for (negsuc n) p k = kwait p k

-- The loop of `ready_processes` from `at`, with room for `room` processes more in `procs`.
-- `node = node->next` reads the link of a node that may have been removed.
pub ready_from : ℕ → ℕ → Ref → Kernel → Run (List ℕ × Kernel)
ready_from zero room at k = out_of_fuel
ready_from (suc f) zero at k = ok ([], k)
ready_from (suc f) (suc room) at k =
    let p = parentof at in
    let later = ready_from f (suc room) (k.sleep_links.next at) k in
    let now = do
      kassert (k.state p == process_waiting)
      let k' = record k { sleep_links = circular_list_remove (node p) k.sleep_links }
      (ps, k'') ← ready_from f room (k'.sleep_links.next at) k'
      ok (p ∷ ps, k'')
    in if ref_eq at (head (wheel_hash k.jiffies))
      then ok ([], k)
      else if long_lt k.jiffies (k.wakeup_jiffies p)
      then later
      else now

unfoldable pub ready_processes : ℕ → ℕ → Kernel → Run (List ℕ × Kernel)
unfolding ready_from
ready_processes fuel max k =
    ready_from fuel max (k.sleep_links.next (head (wheel_hash k.jiffies))) k

-- `for(i = 0; i < len; ++i) in_sched_queue(procs[i])`
pub in_sched_all : List ℕ → Kernel → Run Kernel
in_sched_all [] k = ok k
in_sched_all (p ∷ ps) k = do k' ← in_sched_queue p k; in_sched_all ps k'

-- `PROC_LEN`
abbrev pub proc_len : ℕ
proc_len = 32

-- `while(1)` of `do_timer`, with fuel for the rounds and for the loop within.
pub wake_ready : ℕ → ℕ → Kernel → Run Kernel
wake_ready zero fuel k = out_of_fuel
wake_ready (suc rounds) fuel k = do
  (ps, k₁) ← ready_processes fuel proc_len k
  k₂ ← in_sched_all ps k₁
  let again = wake_ready rounds fuel k₂
  if ltb (length ps) proc_len then ok k₂ else again

-- `do_timer` up to and with its call of `schedule`, less the `_outb` that acknowledges the
-- interrupt; `v_unlock_task` follows in the process that goes on.
unfoldable pub do_timer : ℕ → ℕ → Kernel → Run Kernel
unfolding wake_ready
do_timer rounds fuel k = do
  let k₁ = v_lock_task k
  k₂ ← wake_ready rounds fuel (record k₁ { jiffies = add32 k₁.jiffies 1 })
  schedule k₂

-- The 0 that it answers is left out.
unfoldable pub sys_tsleep : ℕ → Kernel → Run Kernel
sys_tsleep timeout k = do
  k₁ ← out_sched_queue k.cur_process k
  schedule (if timeout == 0 then kwait k.cur_process k₁ else ksleep k.cur_process timeout k₁)
