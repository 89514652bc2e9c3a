-- ===== src/Cond.antt =====
-- src/kcond.c: condition variables. `waiting` and `demand` are one word (a union of inc/sched.h).
-- `_resumed` is the part of `kcond_wait` behind its call of `schedule`.
pub mod Laws
use x_os_tmp.Base.{
  ℕ, zero, suc, ◌+◌, ◌==◌, Bool, true, false, if◌then◌else◌, Run, ok, out_of_fuel, ◌>>=◌, set_at, ℤ,
  pos, negsuc,
}
use x_os_tmp.CircularList.{
  head, node, circular_list_init, circular_list_insert, circular_list_remove,
  circular_list_is_empty,
}
use x_os_tmp.Kernel.{Kernel}
use x_os_tmp.Sched.{parentof, in_sched_queue, out_sched_queue, schedule}
use x_os_tmp.Wait.{kwakeup, sleep_for}

unfoldable pub kcond_init : ℕ → Kernel → Kernel
kcond_init c k = record k { wait_links = circular_list_init (head c) k.wait_links }

-- `waiting` is set when the process has left its level already.
unfoldable pub kcond_wait : ℕ → ℕ → Kernel → Run Kernel
kcond_wait c timeout k = do
  let p = k.cur_process
  k₁ ← out_sched_queue p (record k {
    wait_links = circular_list_insert (k.wait_links.pre (head c)) (node p) k.wait_links;
  })
  schedule (sleep_for (pos timeout) p (record k₁ { demand = set_at k₁.demand p 1 }))

unfoldable pub kcond_wait_resumed : Kernel → ℤ × Kernel
kcond_wait_resumed k =
    let p = k.cur_process in
    if k.demand p == 0
    then (pos 0, k)
    else (negsuc 0, record k { last_errno = set_at k.last_errno p (k.sub_errno p) })

-- The first waiter off the list, awake, and no longer waiting: the body of both loops below.
unfoldable pub signal_first : ℕ → Kernel → Run Kernel
signal_first c k = do
  let p = parentof (k.wait_links.next (head c))
  k₁ ←
      kwakeup p
        (record k { wait_links = circular_list_remove (k.wait_links.next (head c)) k.wait_links })
  k₂ ← in_sched_queue p k₁
  ok (record k₂ { demand = set_at k₂.demand p 0 })

unfoldable pub kcond_signal : ℕ → Kernel → Run (ℕ × Kernel)
unfolding signal_first
kcond_signal c k =
    let first = (do k' ← signal_first c k; ok (1, k')) in
    if circular_list_is_empty (head c) k.wait_links then ok (0, k) else first

pub broadcast_from : ℕ → ℕ → ℕ → Kernel → Run (ℕ × Kernel)
unfolding signal_first
broadcast_from zero c count k = out_of_fuel
broadcast_from (suc f) c count k =
    let rest = (do k' ← signal_first c k; broadcast_from f c (count + 1) k') in
    if circular_list_is_empty (head c) k.wait_links then ok (count, k) else rest

unfoldable pub kcond_broadcast : ℕ → ℕ → Kernel → Run (ℕ × Kernel)
unfolding broadcast_from
kcond_broadcast fuel c k = broadcast_from fuel c 0 k
