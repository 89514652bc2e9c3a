-- ===== src/Sched.antt =====
-- src/sched.c: the two run queues, and the choice of the next process.
pub mod Count
pub mod Queues
pub mod Joined
pub mod Pick
pub mod Requeue
pub mod Schedule
pub mod Init
use x_os_tmp.Base.{
  ℕ, zero, suc, ◌+◌, ◌*◌, ◌%◌, ◌^◌, ◌-◌, Bool, ◌==◌, ltb, if◌then◌else◌, Run, ok, ◌>>=◌, ◌>>◌,
  kassert, set_at,
}
use x_os_tmp.CircularList.{
  Ref, head, node, Links, circular_list_init, circular_list_insert, circular_list_remove,
  circular_list_is_empty,
}
use x_os_tmp.Kernel.{
  Kernel, process_running, sched_level_size, process1, add32, sub32, lock_task, unlock_task,
}

-- The number of the list `levels[i].head` of the queue q.
abbrev pub level : ℕ → ℕ → ℕ
level q i = 16 * q + i

-- `parentof`. The head of a list is embedded in no process: the loops that use this test for it.
abbrev pub parentof : Ref → ℕ
parentof (head i) = i
parentof (node p) = p

-- `uint16_t`, from a `uint8_t`.
abbrev pub flush_rest_time : ℕ → Kernel → ℕ
flush_rest_time p k = (k.nice p + 1) % 2 ^ 16

-- `circular_list_insert(queue->levels[nice].head.pre, &(proc->sched_node))`
abbrev pub append_sched : ℕ → ℕ → Kernel → Kernel
append_sched q p k = record k {
  sched_links =
      circular_list_insert (k.sched_links.pre (head (level q (k.nice p)))) (node p) k.sched_links;
}

-- The two pointers to queues are set by `init_schedule_module` and never cleared, so that the two
-- `kassert`s on them are left out.
unfoldable pub in_sched_queue : ℕ → Kernel → Run Kernel
in_sched_queue p k = do
  let k₁ =
      if ltb 0 (k.rest_time p)
      then record k { sched_queue = set_at k.sched_queue p k.active_queue }
      else record k {
        sched_queue = set_at k.sched_queue p k.expire_queue;
        rest_time = set_at k.rest_time p (flush_rest_time p k);
      }
  let k₂ = lock_task (record k₁ { state = set_at k₁.state p process_running })
  let q = k₂.sched_queue p
  let k₃ = append_sched q p k₂
  unlock_task (record k₃ { queue_count = set_at k₃.queue_count q (add32 (k₃.queue_count q) 1) })

unfoldable pub out_sched_queue : ℕ → Kernel → Run Kernel
out_sched_queue p k = do
  kassert (k.state p == process_running)
  let k₁ = lock_task k
  let q = k₁.sched_queue p
  unlock_task (record k₁ {
    sched_links = circular_list_remove (node p) k₁.sched_links;
    queue_count = set_at k₁.queue_count q (sub32 (k₁.queue_count q) 1);
  })

-- `for(i = SCHED_LEVEL_SIZE - 1; i < SCHED_LEVEL_SIZE; --i)`, from the level below `i` down.
pub pick_from : ℕ → ℕ → Kernel → ℕ
pick_from zero new k = new
pick_from (suc i) new k =
    pick_from i
      (if circular_list_is_empty (head (level k.active_queue i)) k.sched_links
        then new
        else parentof (k.sched_links.next (head (level k.active_queue i))))
      k

-- `schedule` before the choice: the running process goes to the back of its level.
unfoldable pub requeue : Kernel → Kernel
requeue k =
    let p = k.cur_process in
    let k₁ = record k {
      rest_time = set_at k.rest_time p ((k.rest_time p + 2 ^ 16 - 1) % 2 ^ 16);
    } in
    let k₂ = record k₁ { sched_links = circular_list_remove (node p) k₁.sched_links } in
    let k₃ = record k₂ { rest_time = set_at k₂.rest_time p (flush_rest_time p k₂) } in
    let k₄ = append_sched k₃.expire_queue p k₃ in
    let c = set_at k₄.queue_count k₄.active_queue (sub32 (k₄.queue_count k₄.active_queue) 1) in
    let k₅ = record k₄ {
      queue_count = set_at c k₄.expire_queue (add32 (c k₄.expire_queue) 1);
      sched_queue = set_at k₄.sched_queue p k₄.expire_queue;
    } in
    if k₁.state p == process_running
    then (if k₁.rest_time p == 0 then k₅ else append_sched k₂.active_queue p k₂)
    else k₁

-- `schedule` between: an empty active queue changes places with the other.
unfoldable pub swap_queues : Kernel → Kernel
swap_queues k =
    if k.queue_count k.active_queue == 0
    then record k { active_queue = k.expire_queue; expire_queue = k.active_queue }
    else k

-- The whole of `schedule`. `scheduleto` (sched.s) changes the stack, so that the process that is
-- chosen goes on from its own call, first with `unlock_task`: the state is what it finds.
unfoldable pub schedule : Kernel → Run Kernel
unfolding pick_from
schedule k = do
  let k₁ = lock_task k
  kassert (ltb (k₁.nice k₁.cur_process) sched_level_size)
  let k₂ = swap_queues (requeue k₁)
  let new = pick_from sched_level_size process1 k₂
  unlock_task (record k₂ { cur_process = new })

-- `for(i = 0; i < n; ++i)` over the lists of both queues.
unfoldable pub init_levels : ℕ → Links → Links
init_levels zero l = l
init_levels (suc n) l =
    circular_list_init (head (level 1 n)) (circular_list_init (head (level 0 n)) (init_levels n l))

unfoldable pub init_schedule_module : Kernel → Run Kernel
init_schedule_module k =
    let k₁ = record k {
      sched_links = init_levels sched_level_size k.sched_links;
      active_queue = 0;
      expire_queue = 1;
      queue_count = set_at (set_at k.queue_count 0 0) 1 0;
    } in
    in_sched_queue k.cur_process k₁

abbrev pub sys_yield : Kernel → Run Kernel
sys_yield k = schedule k
