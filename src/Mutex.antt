-- ===== src/Mutex.antt =====
-- src/kmutex.c: mutexes. The process at the front of the list holds the mutex.
-- `_resumed` is the part of `kmutex_lock` behind its call of `schedule`. The fuel is for the search
-- that the `kassert`s make.
pub mod Laws
use x_os_tmp.Base.{
  ℕ, zero, suc, Bool, true, false, not, if◌then◌else◌, Run, ok, panic, out_of_fuel, Option, some,
  none, ◌>>=◌, ◌>>◌, kassert, set_at, ℤ, pos, negsuc,
}
use x_os_tmp.CircularList.{
  Ref, head, node, ref_eq, Links, circular_list_init, circular_list_insert, circular_list_remove,
  circular_list_is_inlist, circular_list_is_empty,
}
use x_os_tmp.Kernel.{Kernel, eagain}
use x_os_tmp.Sched.{parentof, in_sched_queue, out_sched_queue, schedule}
use x_os_tmp.Wait.{kwakeup, sleep_for}
use x_os_tmp.Semaphore.{Call, returns, blocks, is_negative}

unfoldable pub kmutex_init : ℕ → Kernel → Kernel
kmutex_init m k = record k { wait_links = circular_list_init (head m) k.wait_links }

-- `kassert(circular_list_is_inlist(...) == 0)`
abbrev pub kassert_inlist : Option Bool → Run (Unit {0})
kassert_inlist none = out_of_fuel
kassert_inlist (some found) = kassert found

unfoldable pub kmutex_lock : ℕ → ℤ → Kernel → Run (Call × Kernel)
kmutex_lock m timeout k =
    let p = k.cur_process in
    let free = record k { wait_links = circular_list_insert (head m) (node p) k.wait_links } in
    let refused = record k { last_errno = set_at k.last_errno p eagain } in
    let waits = record k {
      wait_links = circular_list_insert (k.wait_links.pre (head m)) (node p) k.wait_links;
    } in
    let blocked = do
      k₁ ← out_sched_queue p waits
      k₂ ← schedule (sleep_for timeout p k₁)
      ok (blocks, k₂)
    in if circular_list_is_empty (head m) k.wait_links
      then ok (returns (pos 0), free)
      else if is_negative timeout
      then ok (returns (negsuc 0), refused)
      else blocked

unfoldable pub kmutex_lock_resumed : ℕ → ℕ → Kernel → Run (ℤ × Kernel)
kmutex_lock_resumed fuel m k = do
  let p = k.cur_process
  kassert_inlist (circular_list_is_inlist fuel (head m) (node p) k.wait_links)
  let mine = record k { wait_links = circular_list_remove (node p) k.wait_links }
  let gone = record k { last_errno = set_at k.last_errno p (k.sub_errno p) }
  if ref_eq (k.wait_links.next (head m)) (node p) then ok (pos 0, mine) else ok (negsuc 0, gone)

unfoldable pub kmutex_unlock : ℕ → ℕ → Kernel → Run Kernel
kmutex_unlock fuel m k = do
  let p = k.cur_process
  kassert_inlist (circular_list_is_inlist fuel (head m) (node p) k.wait_links)
  kassert (ref_eq (k.wait_links.next (head m)) (node p))
  let k₁ = record k { wait_links = circular_list_remove (node p) k.wait_links }
  let next = parentof (k₁.wait_links.next (head m))
  let handed = do k₂ ← kwakeup next k₁; in_sched_queue next k₂
  if not (circular_list_is_empty (head m) k₁.wait_links) then handed else ok k₁
