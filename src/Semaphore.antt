-- ===== src/Semaphore.antt =====
-- src/ksemaphore.c: counting semaphores with a queue of waiters.
-- A call that blocks ends in `schedule`, which gives the processor to another process. It is in two
-- parts: what runs up to that call, and, with the name `_resumed`, what runs when the process
-- comes back from it.
pub mod Served
pub mod Up
pub mod Down
use x_os_tmp.Base.{
  ℕ, zero, suc, ◌+◌, ◌-◌, ◌^◌, Bool, true, false, ◌==◌, ltb, leb, not, ◌&&◌, if◌then◌else◌, Run, ok,
  out_of_fuel, ◌>>=◌, ◌>>◌, kassert, set_at, ℤ, pos, negsuc,
}
use x_os_tmp.CircularList.{
  Ref, head, node, Links, circular_list_init, circular_list_insert, circular_list_remove,
  circular_list_is_empty,
}
use x_os_tmp.Kernel.{Kernel, add32, sub32, eagain}
use x_os_tmp.Sched.{parentof, in_sched_queue, out_sched_queue, schedule}
use x_os_tmp.Wait.{kwakeup, sleep_for}

-- What a call that may block comes to: it returns, or another process goes on.
pub data Call : Type 0 where
  returns : ℤ → Call
  blocks : Call

-- A `size_t` as the `int` that a function returns.
abbrev pub to_int : ℕ → ℤ
to_int n = if ltb n (2 ^ 31) then pos n else negsuc (2 ^ 32 - 1 - n)

unfoldable pub ksemaphore_init : ℕ → ℕ → Kernel → Kernel
ksemaphore_init s surplus k = record k {
  wait_links = circular_list_init (head s) k.wait_links;
  surplus = set_at k.surplus s surplus;
}

-- `while(1)` of `ksemaphore_up`.
pub up_from : ℕ → ℕ → Kernel → Run Kernel
up_from zero s k = out_of_fuel
up_from (suc f) s k =
    let p = parentof (k.wait_links.next (head s)) in
    let served = do
      k₁ ← kwakeup p k
      k₂ ← in_sched_queue p k₁
      up_from f s (record k₂ {
        wait_links = circular_list_remove (node p) k₂.wait_links;
        surplus = set_at k₂.surplus s (sub32 (k₂.surplus s) (k₂.demand p));
        demand = set_at k₂.demand p 0;
      })
    in if circular_list_is_empty (head s) k.wait_links
      then ok k
      else if ltb (k.surplus s) (k.demand p)
      then ok k
      else served

unfoldable pub ksemaphore_up : ℕ → ℕ → ℕ → Kernel → Run Kernel
unfolding up_from
ksemaphore_up fuel s num k =
    up_from fuel s (record k { surplus = set_at k.surplus s (add32 (k.surplus s) num) })

abbrev pub is_negative : ℤ → Bool
is_negative (pos n) = false
is_negative (negsuc n) = true

unfoldable pub ksemaphore_down : ℕ → ℕ → ℤ → Kernel → Run (Call × Kernel)
ksemaphore_down s demand timeout k = do
  kassert (ltb 0 demand)
  let p = k.cur_process
  let granted = record k { surplus = set_at k.surplus s (sub32 (k.surplus s) demand) }
  let refused = record k { last_errno = set_at k.last_errno p eagain }
  let waits = record k {
    demand = set_at k.demand p demand;
    wait_links = circular_list_insert (k.wait_links.pre (head s)) (node p) k.wait_links;
  }
  let blocked = do
    k₁ ← out_sched_queue p waits
    k₂ ← schedule (sleep_for timeout p k₁)
    ok (blocks, k₂)
  let later = if is_negative timeout then ok (returns (negsuc 0), refused) else blocked
  if leb demand (k.surplus s) && circular_list_is_empty (head s) k.wait_links
      then ok (returns (to_int demand), granted)
      else later

unfoldable pub ksemaphore_down_resumed : ℕ → Kernel → ℤ × Kernel
ksemaphore_down_resumed demand k =
    let p = k.cur_process in
    if k.demand p == 0
    then (to_int demand, k)
    else (negsuc 0, record k { last_errno = set_at k.last_errno p (k.sub_errno p) })
