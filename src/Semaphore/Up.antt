-- ===== src/Semaphore/Up.antt =====
-- `ksemaphore_up` serves the waiters in the order in which they came, each as a whole, for as long
-- as the first of them can be served.
use x_os_tmp.Base.{
  bind_assoc, sym, In, All-zip, ℕ, zero, suc, ◌+◌, ◌-◌, ◌^◌, ◌<◌, ◌≡◌, ◌≢◌, refl, ◌∙◌, ap, subst,
  ltb, false, List, [], ◌∷◌, ◌++◌, length, arith, All, Bool-cases, inl, inr, Run, ok, ◌>>=◌, set_at,
  set_at_self, In-split, ltb→le,
}
use x_os_tmp.CircularList.{node, circular_list_remove}
use x_os_tmp.CircularList.Seg.{Ring}
use x_os_tmp.CircularList.Rings.{Ring-remove, with_row}
use x_os_tmp.CircularList.Scan.{is_empty-Ring}
use x_os_tmp.Kernel.{Kernel, process_running, add32, sub32}
use x_os_tmp.Semaphore.{up_from, ksemaphore_up}
use x_os_tmp.Wait.{kwakeup}
use x_os_tmp.Sched.{in_sched_queue}
use x_os_tmp.Wait.Wake.{Queues, Asleep, Untouched, wake, wake-Queues, wake-Asleep, Queues-objects}
use x_os_tmp.Semaphore.Served.{served, Served, Served-cons, served-told, served-level}
use x_os_tmp.Sched.Joined.{Joined, Joined-none, Joined-append}

-- The waiters that the units pay for come to their levels, and every other sleeper sleeps on.
abbrev pub UpDone : ℕ → ℕ → List ℕ → Kernel → (ℕ → List ℕ) → (ℕ → List ℕ) → Run Kernel → Type 0
UpDone s have ps k ts₀ tl₀ r =
    (k' : Kernel) × (ts : ℕ → List ℕ) × (tl : ℕ → List ℕ) × (r ≡ ok k')
    × Queues k' ts tl
    × Served s have ps k k'
    × Joined (served k.demand have ps) k ts₀ ts
    × ((q : ℕ) → (In q (served k.demand have ps) → ⊥) → Asleep tl₀ q → Asleep tl q)

-- What the loop does with the first waiter.
abbrev serve : ℕ → ℕ → Kernel → Kernel
serve s p k₂ = record k₂ {
  wait_links = circular_list_remove (node p) k₂.wait_links;
  surplus = set_at k₂.surplus s (sub32 (k₂.surplus s) (k₂.demand p));
  demand = set_at k₂.demand p 0;
}

up_from-step :
    (f s p : ℕ) (ps : List ℕ) (k k₂ : Kernel)
    → Ring k.wait_links s (p ∷ ps)
    → ltb (k.surplus s) (k.demand p) ≡ false
    → wake p k ≡ ok k₂
    → up_from (suc f) s k ≡ up_from f s (serve s p k₂)
unfolding up_from
up_from-step f s p ps k k₂ r e w =
    rw (is_empty-Ring k.wait_links s (p ∷ ps) r, r.seg.0, e)
      (bind_assoc (kwakeup p k) (in_sched_queue p) (λ k₃. up_from f s (serve s p k₃))
        ∙ ap (λ (m : Run Kernel). m >>= λ k₃. up_from f s (serve s p k₃)) w)

abbrev Loop : ℕ → ℕ → List ℕ → Type 0
Loop f s ps =
    (k : Kernel) (ts tl : ℕ → List ℕ)
    → k.surplus s < 2 ^ 32
    → Queues k ts tl
    → Ring k.wait_links s ps
    → All (Asleep tl) ps
    → UpDone s (k.surplus s) ps k ts tl (up_from f s k)

up_from-next :
    (f s p : ℕ) (ps : List ℕ) (k k₂ : Kernel) (ts₀ tl₀ ts tl : ℕ → List ℕ)
    → k.surplus s < 2 ^ 32
    → Ring k.wait_links s (p ∷ ps)
    → ltb (k.surplus s) (k.demand p) ≡ false
    → wake p k ≡ ok k₂
    → Queues k₂ ts tl
    → Untouched p k k₂
    → k₂.state p ≡ process_running
    → Joined (p ∷ []) k ts₀ ts
    → ((z : ℕ) → z ≢ p → Asleep tl₀ z → Asleep tl z)
    → All (Asleep tl) ps
    → Loop f s ps
    → UpDone s (k.surplus s) (p ∷ ps) k ts₀ tl₀ (up_from (suc f) s k)
up_from-next f s p ps k k₂ ts₀ tl₀ ts tl b r e w q u run joined keep a loop = (
  d.0,
  d.1,
  d.2,
  up_from-step f s p ps k k₂ r e w ∙ d.3,
  d.4,
  Served-cons s (k.surplus s) p ps k k₂ d.0 _ _ e r.distinct.0 u run d.5,
  rw e (
      Joined-append (p ∷ []) later k (serve s p k₂) ts₀ ts d.1
        (served-level k.demand (k.surplus s - k.demand p) p ps k k₂ r.distinct.0 u) joined
        (subst (λ l. Joined l (serve s p k₂) ts d.1) told d.6)),
  λ z out m.
      let out' : In z (p ∷ later) → ⊥ = rw e at out in
      d.7 z (λ i. out' (inr (subst (In z) told i))) (keep z (λ g. out' (inl (sym g))) m),
)
  where
    later : List ℕ
    later = served k.demand (k.surplus s - k.demand p) ps

    told : served (serve s p k₂).demand (k.surplus s - k.demand p) ps ≡ later
    told = served-told (k.surplus s - k.demand p) p ps k k₂ r.distinct.0 u

    left : sub32 (k₂.surplus s) (k₂.demand p) ≡ k.surplus s - k.demand p
    left = rw (u.surplus, u.demand) (omega (arith, b, ltb→le _ _ e))

    self : (serve s p k₂).surplus s ≡ k.surplus s - k.demand p
    self = set_at_self k₂.surplus s _ ∙ left

    done : UpDone s ((serve s p k₂).surplus s) ps (serve s p k₂) ts tl (up_from f s (serve s p k₂))
    done =
        loop (serve s p k₂) ts tl (rw self (omega (arith, b))) (Queues-objects k₂ ts tl _ _ _ q)
          (rw (u.wait_links) (Ring-remove k.wait_links s [] p ps r)) a

    d : UpDone s (k.surplus s - k.demand p) ps (serve s p k₂) ts tl (up_from f s (serve s p k₂))
    d = subst (λ n. UpDone s n ps (serve s p k₂) ts tl (up_from f s (serve s p k₂))) self done

up_from-serves :
    (f s : ℕ) (ps : List ℕ) (k : Kernel) (ts tl : ℕ → List ℕ)
    → length ps < f
    → k.surplus s < 2 ^ 32
    → Queues k ts tl
    → Ring k.wait_links s ps
    → All (Asleep tl) ps
    → UpDone s (k.surplus s) ps k ts tl (up_from f s k)
unfolding up_from
up_from-serves zero s ps k ts tl h b q r a = absurd (omega arith)
up_from-serves (suc f) s [] k ts tl h b q r a = (
  k,
  ts,
  tl,
  rw (is_empty-Ring k.wait_links s [] r),
  q,
  record {
    waiters = r;
    surplus = refl;
    awake = tt;
    others = λ p ne. (refl, refl);
    cur_process = refl;
  },
  Joined-none k ts,
  λ z out m. m,
)
up_from-serves (suc f) s (p ∷ ps) k ts tl h b q r a =
    elim (Bool-cases (ltb (k.surplus s) (k.demand p))) [
      | inl e ↦ (
        k,
        ts,
        tl,
        rw (is_empty-Ring k.wait_links s (p ∷ ps) r, r.seg.0, e) refl,
        q,
        record {
          waiters = rw e r;
          surplus = rw e refl;
          awake = rw e tt;
          others = λ p ne. (refl, refl);
          cur_process = refl;
        },
        rw e (Joined-none k ts),
        λ z out m. m,
      )
      | inr e ↦
          let (i, small, m) = a.0 in
          let (xs, ys, at) = In-split p (tl i) m in
          let (k₂, ts', w, q', u, run, joined) = wake-Queues k ts tl p q i small xs ys at in
          up_from-next f s p ps k k₂ ts tl ts' (with_row tl i (xs ++ ys)) b r e w q' u run joined
            (wake-Asleep k ts tl p q i small xs ys at)
            (All-zip ps r.distinct.0 a.1
              (λ z ne s'. wake-Asleep k ts tl p q i small xs ys at z ne s'))
            (λ k' ts'' tl'' b' q'' r' a'.
              up_from-serves f s ps k' ts'' tl'' (omega arith) b' q'' r' a')
    ]

-- With well-formed run and sleep queues, every waiter asleep, fuel above the number of waiters and
-- no overflow of the counter, ksemaphore_up ends, keeps the queues well formed, and wakes exactly
-- the waiters that the units pay for, first come first served, each with its whole demand: in this
-- order they come to the ends of their levels, while the rows of the run queues stay as they were
-- before them and every other sleeper sleeps on. The rest waits on with the units that are left.
pub ksemaphore_up-serves :
    (f s num : ℕ) (ps : List ℕ) (k : Kernel) (ts tl : ℕ → List ℕ)
    → length ps < f
    → k.surplus s + num < 2 ^ 32
    → Queues k ts tl
    → Ring k.wait_links s ps
    → All (Asleep tl) ps
    → UpDone s (k.surplus s + num) ps k ts tl (ksemaphore_up f s num k)
unfolding ksemaphore_up
ksemaphore_up-serves f s num ps k ts tl h b q r a = (
  d.0,
  d.1,
  d.2,
  d.3,
  d.4,
  record {
    waiters = d.5.waiters;
    surplus = d.5.surplus;
    awake = d.5.awake;
    others = d.5.others;
    cur_process = d.5.cur_process;
  },
  d.6,
  d.7,
)
  where
    k₁ : Kernel
    k₁ = record k { surplus = set_at k.surplus s (add32 (k.surplus s) num) }

    self : k₁.surplus s ≡ k.surplus s + num
    self = set_at_self k.surplus s _ ∙ omega arith

    d : UpDone s (k.surplus s + num) ps k₁ ts tl (up_from f s k₁)
    d =
        subst (λ n. UpDone s n ps k₁ ts tl (up_from f s k₁)) self
          (up_from-serves f s ps k₁ ts tl h (rw self b)
            (Queues-objects k ts tl k.wait_links _ k.demand q) r a)

-- With nobody waiting the units are only added.
pub ksemaphore_up-idle :
    (f s num : ℕ) (k : Kernel)
    → Ring k.wait_links s []
    → ksemaphore_up (suc f) s num k
      ≡ ok (record k { surplus = set_at k.surplus s (add32 (k.surplus s) num) })
unfolding ksemaphore_up up_from
ksemaphore_up-idle f s num k r = rw (is_empty-Ring k.wait_links s [] r) refl
