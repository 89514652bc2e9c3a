-- ===== src/Cond/Laws.antt =====
-- `kcond_signal` wakes the waiter that came first, and `kcond_broadcast` all of them.
use x_os_tmp.Base.{
  All-zip, All-imp, ℕ, zero, suc, ◌+◌, ◌<◌, ◌≡◌, ◌≢◌, refl, sym, ◌∙◌, ap, List, [], ◌∷◌, ◌++◌,
  length, arith, All, Fresh, Fresh-not-In, In, Run, ok, ◌>>=◌, set_at, set_at_self, set_at_ne,
  In-split, bind_assoc, inl, inr,
}
use x_os_tmp.CircularList.{node, circular_list_remove}
use x_os_tmp.CircularList.Seg.{Ring}
use x_os_tmp.CircularList.Rings.{Ring-remove, with_row}
use x_os_tmp.CircularList.Scan.{is_empty-Ring}
use x_os_tmp.Kernel.{Kernel, process_running}
use x_os_tmp.Sched.{in_sched_queue}
use x_os_tmp.Wait.{kwakeup}
use x_os_tmp.Sched.Joined.{Joined, Joined-none, Joined-append, level_for}
use x_os_tmp.Wait.Wake.{
  Queues, Asleep, Untouched, Untouched-level, wake, wake-Queues, wake-Asleep, Queues-objects,
}
use x_os_tmp.Cond.{signal_first, kcond_signal, broadcast_from, kcond_broadcast}

-- One waiter woken: where it was, and that all else stays.
pub record Signalled (c p : ℕ) (ps : List ℕ) (k k' : Kernel) : Type 0 where
  pub waiters : Ring k'.wait_links c ps
  pub awake : k'.state p ≡ process_running
  pub told : k'.demand p ≡ 0
  pub others : (q : ℕ) → q ≢ p → (k'.state q ≡ k.state q) × (k'.demand q ≡ k.demand q)

-- The first waiter is woken, and everybody else sleeps on.
abbrev pub SignalDone : ℕ → ℕ → List ℕ → (ℕ → List ℕ) → (ℕ → List ℕ) → Kernel → Run Kernel → Type 0
SignalDone c p ps ts tl k r =
    (k' : Kernel) × (ts' : ℕ → List ℕ) × (tl' : ℕ → List ℕ) × (r ≡ ok k')
    × Queues k' ts' tl'
    × Signalled c p ps k k'
    × ((q : ℕ) → q ≢ p → Asleep tl q → Asleep tl' q)
    × Joined (p ∷ []) k ts ts'
    × ((q : ℕ) → q ≢ p → level_for q k' ≡ level_for q k)

module _ (c p : ℕ) (ps : List ℕ) (k : Kernel) (r : Ring k.wait_links c (p ∷ ps)) where
  abbrev unlinked : Kernel
  unlinked = record k { wait_links = circular_list_remove (node p) k.wait_links }

  off : Ring unlinked.wait_links c ps
  off = Ring-remove k.wait_links c [] p ps r

  abbrev told_of : Kernel → Kernel
  told_of k₂ = record k₂ { demand = set_at k₂.demand p 0 }

  abbrev tell : Kernel → Run Kernel
  tell k₂ = ok (told_of k₂)

  signal_first-woken : (k₂ : Kernel) → wake p unlinked ≡ ok k₂ → signal_first c k ≡ ok (told_of k₂)
  unfolding signal_first
  signal_first-woken k₂ w = rw (r.seg.0) (
      bind_assoc (kwakeup p unlinked) (in_sched_queue p) tell
      ∙ ap (λ (m : Run Kernel). m >>= tell) w)

  signal_first-next :
      (k₂ : Kernel) (ts₀ ts tl tl' : ℕ → List ℕ)
      → wake p unlinked ≡ ok k₂
      → Queues k₂ ts tl'
      → Untouched p unlinked k₂
      → k₂.state p ≡ process_running
      → ((q : ℕ) → q ≢ p → Asleep tl q → Asleep tl' q)
      → Joined (p ∷ []) k ts₀ ts
      → SignalDone c p ps ts₀ tl k (signal_first c k)
  signal_first-next k₂ ts₀ ts tl tl' w q u run keep joined = (
    told_of k₂,
    ts,
    tl',
    signal_first-woken k₂ w,
    Queues-objects k₂ ts tl' k₂.wait_links k₂.surplus _ q,
    record {
      waiters = rw (u.wait_links) off;
      awake = run;
      told = set_at_self k₂.demand p 0;
      others = λ z ne. (u.state z ne, set_at_ne k₂.demand p 0 z ne ∙ ap (λ h. h z) u.demand);
    },
    keep,
    joined,
    Untouched-level p unlinked k₂ u,
  )

  pub signal_first-wakes :
      (ts tl : ℕ → List ℕ)
      → Queues k ts tl
      → Asleep tl p
      → SignalDone c p ps ts tl k (signal_first c k)
  signal_first-wakes ts tl q (i, small, m) =
      let (xs, ys, at) = In-split p (tl i) m in
      let q₁ = Queues-objects k ts tl unlinked.wait_links k.surplus k.demand q in
      let (k₂, ts', w, q', u, run, joined) = wake-Queues unlinked ts tl p q₁ i small xs ys at in
      signal_first-next k₂ ts ts' tl (with_row tl i (xs ++ ys)) w q' u run
        (wake-Asleep unlinked ts tl p q₁ i small xs ys at) joined

-- What a signal does with the waiters it finds: without any, nothing.
abbrev pub WakesFirst : ℕ → List ℕ → Kernel → Kernel → Type 0
WakesFirst c [] k k' = k' ≡ k
WakesFirst c (p ∷ ps) k k' = Signalled c p ps k k'

-- The answer of `kcond_signal`: how many it has woken.
abbrev pub woken : List ℕ → ℕ
woken [] = 0
woken (p ∷ ps) = 1

-- With well-formed queues and every waiter asleep, kcond_signal answers 0 and does nothing when
-- nobody waits, and else answers 1 and wakes the first waiter alone.
pub kcond_signal-WakesFirst :
    (c : ℕ) (ps : List ℕ) (k : Kernel) (ts tl : ℕ → List ℕ)
    → Queues k ts tl
    → Ring k.wait_links c ps
    → All (Asleep tl) ps
    → (k' : Kernel) × (kcond_signal c k ≡ ok (woken ps, k')) × WakesFirst c ps k k'
unfolding kcond_signal
kcond_signal-WakesFirst c [] k ts tl q r a = (k, rw (is_empty-Ring k.wait_links c [] r) refl, refl)
kcond_signal-WakesFirst c (p ∷ ps) k ts tl q r a =
    let (k', ts', tl', e, q', s, keep, joined, levels) =
      signal_first-wakes c p ps k r ts tl q a.0 in
    (k', rw (is_empty-Ring k.wait_links c (p ∷ ps) r, e) refl, s)

-- After the loop nobody waits: each waiter runs and has been told.
pub record Broadcast (c : ℕ) (ps : List ℕ) (k k' : Kernel) : Type 0 where
  pub waiters : Ring k'.wait_links c []
  pub awake : All (λ p. (k'.state p ≡ process_running) × (k'.demand p ≡ 0)) ps
  pub others : (q : ℕ) → (In q ps → ⊥) → (k'.state q ≡ k.state q) × (k'.demand q ≡ k.demand q)

Broadcast-cons :
    (c p : ℕ) (ps : List ℕ) (k k₁ k₂ : Kernel)
    → Fresh p ps
    → Signalled c p ps k k₁
    → Broadcast c ps k₁ k₂
    → Broadcast c (p ∷ ps) k k₂
Broadcast-cons c p ps k k₁ k₂ f s b = record {
  waiters = b.waiters;
  awake = ((kept.0 ∙ s.awake, kept.1 ∙ s.told), b.awake);
  others = λ q out.
      let o = s.others q (λ e. out (inl (sym e))) in
      let o' = b.others q (λ m. out (inr m)) in (o'.0 ∙ o.0, o'.1 ∙ o.1);
}
  where
    kept : (k₂.state p ≡ k₁.state p) × (k₂.demand p ≡ k₁.demand p)
    kept = b.others p (Fresh-not-In p ps f)

abbrev answer : Kernel → ℕ → Run (ℕ × Kernel)
answer k n = ok (n, k)

-- The rows behind the loop: the waiters come to their levels in their order, and every other sleeper
-- sleeps on.
pub record BroadcastRows (ps : List ℕ) (k : Kernel) (ts tl : ℕ → List ℕ) (k' : Kernel)
    : Type 0 where
  pub levels : ℕ → List ℕ
  pub sleepers : ℕ → List ℕ
  pub queues : Queues k' levels sleepers
  pub joined : Joined ps k ts levels
  pub keep : (q : ℕ) → (In q ps → ⊥) → Asleep tl q → Asleep sleepers q

abbrev Broadcasts : ℕ → ℕ → ℕ → List ℕ → Kernel → (ℕ → List ℕ) → (ℕ → List ℕ) → Type 0
Broadcasts f c n ps k ts tl =
    (k' : Kernel) × (broadcast_from f c n k ≡ ok (n + length ps, k'))
    × Broadcast c ps k k'
    × BroadcastRows ps k ts tl k'

broadcast_from-next :
    (f c n p : ℕ) (ps : List ℕ) (k k₁ : Kernel) (ts tl ts₁ tl₁ : ℕ → List ℕ)
    → Ring k.wait_links c (p ∷ ps)
    → signal_first c k ≡ ok k₁
    → Signalled c p ps k k₁
    → ((q : ℕ) → q ≢ p → Asleep tl q → Asleep tl₁ q)
    → Joined (p ∷ []) k ts ts₁
    → ((q : ℕ) → q ≢ p → level_for q k₁ ≡ level_for q k)
    → Broadcasts f c (n + 1) ps k₁ ts₁ tl₁
    → Broadcasts (suc f) c n (p ∷ ps) k ts tl
unfolding broadcast_from
broadcast_from-next f c n p ps k k₁ ts tl ts₁ tl₁ r e s keep joined levels (k', w, b, t) = (
  k',
  rw (is_empty-Ring k.wait_links c (p ∷ ps) r, e) (w ∙ ap (answer k') (omega arith)),
  Broadcast-cons c p ps k k₁ k' r.distinct.0 s b,
  record {
    levels = t.levels;
    sleepers = t.sleepers;
    queues = t.queues;
    joined =
        Joined-append (p ∷ []) ps k k₁ ts ts₁ t.levels
          (All-imp ps (λ q ne. levels q ne) r.distinct.0) joined t.joined;
    keep = λ q out a. t.keep q (λ m. out (inr m)) (keep q (λ e. out (inl (sym e))) a);
  },
)

broadcast_from-wakes :
    (f c n : ℕ) (ps : List ℕ) (k : Kernel) (ts tl : ℕ → List ℕ)
    → length ps < f
    → Queues k ts tl
    → Ring k.wait_links c ps
    → All (Asleep tl) ps
    → Broadcasts f c n ps k ts tl
unfolding broadcast_from
broadcast_from-wakes zero c n ps k ts tl h q r a = absurd (omega arith)
broadcast_from-wakes (suc f) c n [] k ts tl h q r a = (
  k,
  rw (is_empty-Ring k.wait_links c [] r) (ap (answer k) (omega arith)),
  record { waiters = r; awake = tt; others = λ p ne. (refl, refl) },
  record { levels = ts; sleepers = tl; queues = q; joined = Joined-none k ts; keep = λ p out a. a },
)
broadcast_from-wakes (suc f) c n (p ∷ ps) k ts tl h q r a =
    let (k₁, ts', tl', e, q', s, keep, joined, levels) =
      signal_first-wakes c p ps k r ts tl q a.0 in
    broadcast_from-next f c n p ps k k₁ ts tl ts' tl' r e s keep joined levels (
      broadcast_from-wakes f c (n + 1) ps k₁ ts' tl' (omega arith) q' s.waiters
        (All-zip ps r.distinct.0 a.1 keep))

-- With well-formed queues, every waiter asleep and fuel above their number, kcond_broadcast ends,
-- answers their number and leaves the list empty. Every waiter runs, is told so, and has come, in
-- the order of the list, to the end of its level; the rows of the run queues stay as they were
-- before them, every other sleeper sleeps on, and the state and the demand of every other process
-- are as before.
pub kcond_broadcast-Broadcast :
    (f c : ℕ) (ps : List ℕ) (k : Kernel) (ts tl : ℕ → List ℕ)
    → length ps < f
    → Queues k ts tl
    → Ring k.wait_links c ps
    → All (Asleep tl) ps
    → (k' : Kernel) × (kcond_broadcast f c k ≡ ok (length ps, k'))
      × Broadcast c ps k k'
      × BroadcastRows ps k ts tl k'
unfolding kcond_broadcast
kcond_broadcast-Broadcast f c ps k ts tl h q r a =
    let (k', w, b, t) = broadcast_from-wakes f c 0 ps k ts tl h q r a in
    (k', w ∙ ap (answer k') (omega arith), b, t)
