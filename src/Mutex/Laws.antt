-- ===== src/Mutex/Laws.antt =====
-- What `kmutex_lock` and `kmutex_unlock` do to the list of the mutex.
use x_os_tmp.Base.{
  In, sym, ◌≢◌, ◌++◌, some, ℕ, ◌<◌, ◌≡◌, refl, ◌∙◌, ap, Bool, true, false, List, [], ◌∷◌, length,
  if◌then◌else◌, arith, All, Fresh, Fresh-not-In, inl, inr, ok, panic, set_at, ℤ, pos, negsuc,
  In-split, ◌⊎◌,
}
use x_os_tmp.CircularList.{
  head, node, Links, circular_list_is_inlist, circular_list_remove, circular_list_insert,
}
use x_os_tmp.CircularList.Seg.{Ring, ref_eq_self}
use x_os_tmp.CircularList.Rings.{with_row, Ring-insert_front, Ring-remove}
use x_os_tmp.CircularList.Scan.{is_empty, is_empty-Ring, is_inlist-Ring, mem, mem-In, In-mem}
use x_os_tmp.Kernel.{Kernel, process_running, eagain}
use x_os_tmp.Semaphore.{returns, is_negative}
use x_os_tmp.Sched.Joined.{Joined, Joined-none}
use x_os_tmp.Wait.Wake.{Queues, Asleep, Untouched, wake, wake-Queues, wake-Asleep, Queues-objects}
use x_os_tmp.Mutex.{kmutex_lock, kmutex_lock_resumed, kmutex_unlock}

-- A free mutex puts the caller on the list and answers 0; a held one with a negative timeout
-- answers -1 with EAGAIN; the run queues and the states stay as they are.
pub kmutex_lock-at_once :
    (m : ℕ) (timeout : ℤ) (ps : List ℕ) (k : Kernel)
    → Ring k.wait_links m ps
    → (ps ≡ []) ⊎ (is_negative timeout ≡ true)
    → (k' : Kernel) × (kmutex_lock m timeout k
        ≡ ok (returns (if is_empty ps then pos 0 else negsuc 0), k'))
      × Ring k'.wait_links m (if is_empty ps then k.cur_process ∷ [] else ps)
      × (k'.last_errno
          ≡ (if is_empty ps then k.last_errno else set_at k.last_errno k.cur_process eagain))
      × (k'.sched_links ≡ k.sched_links)
      × (k'.state ≡ k.state)
unfolding kmutex_lock
kmutex_lock-at_once m timeout [] k r h = (
  record k { wait_links = circular_list_insert (head m) (node k.cur_process) k.wait_links },
  rw (is_empty-Ring k.wait_links m [] r) refl,
  Ring-insert_front k.wait_links m k.cur_process [] tt r,
  refl,
  refl,
  refl,
)
kmutex_lock-at_once m timeout (p ∷ ps) k r (inl e) = cc
kmutex_lock-at_once m timeout (p ∷ ps) k r (inr neg) = (
  record k { last_errno = set_at k.last_errno k.cur_process eagain },
  rw (is_empty-Ring k.wait_links m (p ∷ ps) r, neg) refl,
  r,
  refl,
  refl,
  refl,
)

found :
    (f m p : ℕ) (ps : List ℕ) (l : Links)
    → length (p ∷ ps) < f
    → Ring l m (p ∷ ps)
    → circular_list_is_inlist f (head m) (node p) l ≡ some true
found f m p ps l h r = is_inlist-Ring f l m p (p ∷ ps) h r ∙ ap some (In-mem p (p ∷ ps) (inl refl))

lost :
    (f m p : ℕ) (ps : List ℕ) (l : Links)
    → length ps < f
    → Fresh p ps
    → Ring l m ps
    → circular_list_is_inlist f (head m) (node p) l ≡ some false
lost f m p ps l h fr r = is_inlist-Ring f l m p ps h r ∙ ap some (absent (mem p ps) refl)
  where
    absent : (b : Bool) → mem p ps ≡ b → b ≡ false
    absent true e = absurd (Fresh-not-In p ps fr (mem-In p ps e))
    absent false e = refl

abbrev unlinked : Kernel → Kernel
unlinked k = record k { wait_links = circular_list_remove (node k.cur_process) k.wait_links }

-- The mutex is with the first of the list, and that process runs.
abbrev pub HolderRuns : List ℕ → Kernel → Type 0
HolderRuns [] k = Unit
HolderRuns (p ∷ ps) k = k.state p ≡ process_running

abbrev pub take_one : List ℕ → List ℕ
take_one [] = []
take_one (p ∷ ps) = p ∷ []

-- The first of the others, if there is one, comes to its level, and every other sleeper sleeps on.
abbrev pub HandsOver : ℕ → ℕ → List ℕ → Kernel → (ℕ → List ℕ) → (ℕ → List ℕ) → Type 0
HandsOver f m ps k ts tl =
    (k' : Kernel) × (ts' : ℕ → List ℕ) × (tl' : ℕ → List ℕ) × (kmutex_unlock f m k ≡ ok k')
    × Ring k'.wait_links m ps
    × HolderRuns ps k'
    × Queues k' ts' tl'
    × Joined (take_one ps) k ts ts'
    × ((q : ℕ) → (In q (take_one ps) → ⊥) → Asleep tl q → Asleep tl' q)

hand_over :
    (f m p : ℕ) (ps : List ℕ) (k k₂ : Kernel) (ts tl ts' tl' : ℕ → List ℕ)
    → length (k.cur_process ∷ p ∷ ps) < f
    → Ring k.wait_links m (k.cur_process ∷ p ∷ ps)
    → wake p (unlinked k) ≡ ok k₂
    → Untouched p (unlinked k) k₂
    → k₂.state p ≡ process_running
    → Queues k₂ ts' tl'
    → Joined (p ∷ []) k ts ts'
    → ((q : ℕ) → q ≢ p → Asleep tl q → Asleep tl' q)
    → HandsOver f m (p ∷ ps) k ts tl
unfolding kmutex_unlock
hand_over f m p ps k k₂ ts tl ts' tl' h r w u run q joined keep = (
  k₂,
  ts',
  tl',
  rw
      (
        found f m k.cur_process (p ∷ ps) k.wait_links h r,
        r.seg.0,
        ref_eq_self (node k.cur_process),
        is_empty-Ring (unlinked k).wait_links m (p ∷ ps) off,
        off.seg.0,
      )
      w,
  rw (u.wait_links) off,
  run,
  q,
  joined,
  λ z out a. keep z (λ e. out (inl (sym e))) a,
)
  where
    off : Ring (unlinked k).wait_links m (p ∷ ps)
    off = Ring-remove k.wait_links m [] k.cur_process (p ∷ ps) r

-- When the caller stands at the front of the list of the mutex, the queues are well formed, every
-- waiter sleeps and the fuel is above the length of the list, kmutex_unlock ends, takes the caller
-- off the list, and wakes the first waiter, if there is one, which is the new front and has come
-- to the end of its level. The other levels are as they were, and every other sleeper sleeps on.
pub kmutex_unlock-HandsOver :
    (f m : ℕ) (ps : List ℕ) (k : Kernel) (ts tl : ℕ → List ℕ)
    → length (k.cur_process ∷ ps) < f
    → Queues k ts tl
    → Ring k.wait_links m (k.cur_process ∷ ps)
    → All (Asleep tl) ps
    → HandsOver f m ps k ts tl
unfolding kmutex_unlock
kmutex_unlock-HandsOver f m [] k ts tl h q r a = (
  unlinked k,
  ts,
  tl,
  rw
      (
        found f m k.cur_process [] k.wait_links h r,
        r.seg.0,
        ref_eq_self (node k.cur_process),
        is_empty-Ring (unlinked k).wait_links m []
            (Ring-remove k.wait_links m [] k.cur_process [] r),
      )
      refl,
  Ring-remove k.wait_links m [] k.cur_process [] r,
  tt,
  Queues-objects k ts tl (unlinked k).wait_links k.surplus k.demand q,
  Joined-none k ts,
  λ z out b. b,
)
kmutex_unlock-HandsOver f m (p ∷ ps) k ts tl h q r a =
    let (i, small, m') = a.0 in
    let (xs, ys, at) = In-split p (tl i) m' in
    let q₁ = Queues-objects k ts tl (unlinked k).wait_links k.surplus k.demand q in
    let (k₂, ts', w, q', u, run, joined) = wake-Queues (unlinked k) ts tl p q₁ i small xs ys at in
    hand_over f m p ps k k₂ ts tl ts' (with_row tl i (xs ++ ys)) h r w u run q' joined
      (wake-Asleep (unlinked k) ts tl p q₁ i small xs ys at)

-- A waiter that resumes at the front of the list gets the answer 0 from kmutex_lock, but is taken
-- off the list, and its own kmutex_unlock in that state stops the kernel.
pub kmutex_lock_resumed-unlock_panics :
    (f m : ℕ) (ps : List ℕ) (k : Kernel)
    → length (k.cur_process ∷ ps) < f
    → Ring k.wait_links m (k.cur_process ∷ ps)
    → (k' : Kernel) × (kmutex_lock_resumed f m k ≡ ok (pos 0, k'))
      × Ring k'.wait_links m ps
      × (kmutex_unlock f m k' ≡ panic)
unfolding kmutex_lock_resumed kmutex_unlock
kmutex_lock_resumed-unlock_panics f m ps k h r = (
  unlinked k,
  rw (found f m k.cur_process ps k.wait_links h r, r.seg.0, ref_eq_self (node k.cur_process)) refl,
  off,
  rw (lost f m k.cur_process ps (unlinked k).wait_links (omega arith) r.distinct.0 off) refl,
)
  where
    off : Ring (circular_list_remove (node k.cur_process) k.wait_links) m ps
    off = Ring-remove k.wait_links m [] k.cur_process ps r
