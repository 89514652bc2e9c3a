-- ===== src/Wait/Sorted.antt =====
-- Which processes of a slot `ready_processes` takes, and which stay.
use x_os_tmp.Base.{
  ℕ, zero, suc, ◌+◌, ◌<◌, ◌≡◌, ◌⊎◌, refl, sym, subst, Bool, true, false, List, [], ◌∷◌, ◌++◌, ap,
  length, arith, Bool-cases, inl, inr, In, Distinct, Fresh-not-In, Fresh-of_not-In,
}
use x_os_tmp.Wait.Collect.{taken, left, all_due}

module _ (late : ℕ → Bool) where
  pub taken-In :
      (room : ℕ) (ps : List ℕ) (p : ℕ) → In p (taken late room ps) → In p ps × (late p ≡ false)
  taken-In zero ps p m = absurd m
  taken-In (suc room) [] p m = absurd m
  taken-In (suc room) (q ∷ ps) p m = elim (Bool-cases (late q)) [
    | inl e ↦ let r = taken-In (suc room) ps p (rw e at m) in (inr r.0, r.1)
    | inr e ↦ elim (rw e at m) [
      | inl w ↦ (inl w, rw (← w) e)
      | inr z ↦ let r = taken-In room ps p z in (inr r.0, r.1)
    ]
  ]

  pub left-In : (room : ℕ) (ps : List ℕ) (p : ℕ) → In p (left late room ps) → In p ps
  left-In zero ps p m = m
  left-In (suc room) [] p m = m
  left-In (suc room) (q ∷ ps) p m = elim (Bool-cases (late q)) [
    | inl e ↦ elim (rw e at m) [ inl w ↦ inl w | inr z ↦ inr (left-In (suc room) ps p z) ]
    | inr e ↦ inr (left-In room ps p (rw e at m))
  ]

  pub split-In :
      (room : ℕ) (ps : List ℕ) (p : ℕ)
      → In p ps
      → In p (taken late room ps) ⊎ In p (left late room ps)
  split-In zero ps p m = inr m
  split-In (suc room) [] p m = inr m
  split-In (suc room) (q ∷ ps) p m = elim (Bool-cases (late q)) [
    | inl e ↦ elim m [
      | inl w ↦ inr (rw e (inl w))
      | inr z ↦ elim (split-In (suc room) ps p z) [
        | inl a ↦ inl (rw e a)
        | inr b ↦ inr (rw e (inr b))
      ]
    ]
    | inr e ↦ elim m [
      | inl w ↦ inl (rw e (inl w))
      | inr z ↦ elim (split-In room ps p z) [ inl a ↦ inl (rw e (inr a)) | inr b ↦ inr (rw e b) ]
    ]
  ]

  pub taken-Distinct : (room : ℕ) (ps : List ℕ) → Distinct ps → Distinct (taken late room ps)
  taken-Distinct zero ps d = tt
  taken-Distinct (suc room) [] d = tt
  taken-Distinct (suc room) (q ∷ ps) d = elim (Bool-cases (late q)) [
    | inl e ↦ rw e (taken-Distinct (suc room) ps d.1)
    | inr e ↦ rw e (
      Fresh-of_not-In q (taken late room ps) (λ m. Fresh-not-In q ps d.0 (taken-In room ps q m).0),
      taken-Distinct room ps d.1,
    )
  ]

  pub taken-not-left :
      (room : ℕ) (ps : List ℕ) (p : ℕ)
      → Distinct ps
      → In p (taken late room ps)
      → In p (left late room ps)
      → ⊥
  taken-not-left zero ps p d m l = m
  taken-not-left (suc room) [] p d m l = m
  taken-not-left (suc room) (q ∷ ps) p d m l = elim (Bool-cases (late q)) [
    | inl e ↦ elim (rw e at l) [
      | inl w ↦
          Fresh-not-In q ps d.0
            (subst (λ z. In z ps) (sym w) (taken-In (suc room) ps p (rw e at m)).0)
      | inr z ↦ taken-not-left (suc room) ps p d.1 (rw e at m) z
    ]
    | inr e ↦ elim (rw e at m) [
      | inl w ↦ Fresh-not-In q ps d.0 (subst (λ z. In z ps) (sym w) (left-In room ps p (rw e at l)))
      | inr z ↦ taken-not-left room ps p d.1 z (rw e at l)
    ]
  ]

  -- With room to spare, what is left is late.
  pub left-late :
      (room : ℕ) (ps : List ℕ) (p : ℕ)
      → length (taken late room ps) < room
      → In p (left late room ps)
      → late p ≡ true
  left-late zero ps p h m = absurd (omega (arith, h))
  left-late (suc room) [] p h m = absurd m
  left-late (suc room) (q ∷ ps) p h m = elim (Bool-cases (late q)) [
    | inl e ↦ elim (rw e at m) [
      | inl w ↦ rw (← w) e
      | inr z ↦ left-late (suc room) ps p (rw e at h) z
    ]
    | inr e ↦
        let h' : length (q ∷ taken late room ps) < suc room = rw e at h in
        left-late room ps p (omega (arith, h')) (rw e at m)
  ]

  pub length-sorted :
      (room : ℕ) (ps : List ℕ)
      → length (taken late room ps) + length (left late room ps) ≡ length ps
  length-sorted zero ps = omega arith
  length-sorted (suc room) [] = refl
  length-sorted (suc room) (q ∷ ps) = elim (Bool-cases (late q)) [
    | inl e ↦ rw e (omega (arith, length-sorted (suc room) ps))
    | inr e ↦ rw e (omega (arith, length-sorted room ps))
  ]

  pub all_due-In : (ps : List ℕ) (p : ℕ) → In p (all_due late ps) → In p ps
  all_due-In [] p m = m
  all_due-In (q ∷ ps) p m = elim (Bool-cases (late q)) [
    | inl e ↦ inr (all_due-In ps p (rw e at m))
    | inr e ↦ elim (rw e at m) [ inl w ↦ inl w | inr z ↦ inr (all_due-In ps p z) ]
  ]

  -- Those that are taken, and then those that were left.
  pub all_due-taken :
      (room : ℕ) (ps : List ℕ)
      → all_due late ps ≡ taken late room ps ++ all_due late (left late room ps)
  all_due-taken zero ps = refl
  all_due-taken (suc room) [] = refl
  all_due-taken (suc room) (q ∷ ps) = elim (Bool-cases (late q)) [
    | inl e ↦ rw (e, e) (all_due-taken (suc room) ps)
    | inr e ↦ rw e (ap (λ l. q ∷ l) (all_due-taken room ps))
  ]

  pub all_due-short :
      (room : ℕ) (ps : List ℕ)
      → length (taken late room ps) < room
      → all_due late ps ≡ taken late room ps
  all_due-short zero ps h = absurd (omega (arith, h))
  all_due-short (suc room) [] h = refl
  all_due-short (suc room) (q ∷ ps) h = elim (Bool-cases (late q)) [
    | inl e ↦ rw e (all_due-short (suc room) ps (rw e at h))
    | inr e ↦
        let h' : length (q ∷ taken late room ps) < suc room = rw e at h in
        rw e (ap (λ l. q ∷ l) (all_due-short room ps (omega (arith, h'))))
  ]
