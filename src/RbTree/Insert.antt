-- ===== src/RbTree/Insert.antt =====
-- The descent of `pcinfo_rb_tree_insert` and `blkbuffer_rb_tree_insert`: where the new node goes.
use x_os_tmp.Base.{
  ℕ, zero, suc, ◌+◌, ◌≤◌, ◌≡◌, refl, sym, ap, subst, ◌∙◌, if◌then◌else◌, Bool, List, ◌∷◌, ◌++◌,
  length, arith, Bool-cases, inl, inr, length-append,
}
use x_os_tmp.RbTree.{red, black, left, right}
use x_os_tmp.RbTree.Shape.{Tree, leaf, bin, Frame, frame, plug, occ, occ_above}
use x_os_tmp.RbTree.Balance.{root_color, inorder, IsRb, IsRbAbove, BlackTop}
use x_os_tmp.RbTree.Order.{
  Weak, Sorted, insert_by, insert_by-left, insert_by-right, Sorted-left, Sorted-right,
}

module _ (less : ℕ → ℕ → Bool) (n : ℕ) where
  -- The place of the node: the frames above the leaf where the descent ends.
  abbrev pub place : List Frame → Tree → List Frame
  place k leaf = k
  place k (bin c l x r) =
      if less n x then place (frame left c x r ∷ k) l else place (frame right c x l ∷ k) r

  abbrev pub grown : Tree → Tree
  grown leaf = bin red leaf n leaf
  grown (bin c l x r) = if less n x then bin c (grown l) x r else bin c l x (grown r)

  pub plug-place :
      (k : List Frame) (t : Tree) → plug (place k t) (bin red leaf n leaf) ≡ plug k (grown t)
  plug-place k leaf = refl
  plug-place k (bin c l x r) = elim (Bool-cases (less n x)) [
    | inl e ↦ rw e (plug-place (frame left c x r ∷ k) l)
    | inr e ↦ rw e (plug-place (frame right c x l ∷ k) r)
  ]

  pub inorder-grown :
      Weak less
      → (t : Tree) → Sorted less (inorder t)
      → inorder (grown t) ≡ insert_by less n (inorder t)
  unfolding insert_by
  inorder-grown w leaf s = refl
  inorder-grown w (bin c l x r) s = elim (Bool-cases (less n x)) [
    | inl e ↦ rw e (
        ap (λ z. z ++ (x ∷ inorder r))
          (inorder-grown w l (Sorted-left less (inorder l) (x ∷ inorder r) s))
        ∙ sym (insert_by-left less n (inorder l) x (inorder r) e))
    | inr e ↦ rw e (
        ap (λ z. inorder l ++ (x ∷ z))
          (inorder-grown w r (Sorted-right less (inorder l) (x ∷ inorder r) s).1)
        ∙ sym (insert_by-right less w n (inorder l) x (inorder r) s e))
  ]

  pub occ_above-place :
      (z : ℕ) (k : List Frame) (t : Tree) → occ_above z (place k t) ≡ occ z t + occ_above z k
  occ_above-place z k leaf = omega arith
  occ_above-place z k (bin c l x r) = elim (Bool-cases (less n x)) [
    | inl e ↦ rw e (omega (arith, occ_above-place z (frame left c x r ∷ k) l))
    | inr e ↦ rw e (omega (arith, occ_above-place z (frame right c x l ∷ k) r))
  ]

  pub length-place :
      (k : List Frame) (t : Tree) → length (place k t) ≤ length k + length (inorder t)
  length-place k leaf = omega arith
  length-place k (bin c l x r) = elim (Bool-cases (less n x)) [
    | inl e ↦ rw e (
        omega
          (arith, length-place (frame left c x r ∷ k) l, length-append (inorder l) (x ∷ inorder r)))
    | inr e ↦ rw e (
        omega (
          arith,
          length-place (frame right c x l ∷ k) r,
          length-append (inorder l) (x ∷ inorder r),
        ))
  ]

  -- The place of a red node in a red-black tree.
  pub place-IsRbAbove :
      (k : List Frame) (m : ℕ) (t : Tree)
      → IsRbAbove k m
      → IsRb t m
      → (root_color t ≡ red → BlackTop k)
      → IsRbAbove (place k t) 0
  place-IsRbAbove k m leaf a h b = subst (IsRbAbove k) h a
  place-IsRbAbove k zero (bin black l x r) a h b = absurd h
  place-IsRbAbove k (suc m) (bin black l x r) a h b = elim (Bool-cases (less n x)) [
    | inl e ↦ rw e (place-IsRbAbove (frame left black x r ∷ k) m l (h.1, a) h.0 (λ w. refl))
    | inr e ↦ rw e (place-IsRbAbove (frame right black x l ∷ k) m r (h.0, a) h.1 (λ w. refl))
  ]
  place-IsRbAbove k m (bin red l x r) a h b = elim (Bool-cases (less n x)) [
    | inl e ↦
        rw e (
          place-IsRbAbove (frame left red x r ∷ k) m l (h.1, h.3, b refl, a) h.0 (λ w. cc (w, h.2)))
    | inr e ↦
        rw e (
          place-IsRbAbove (frame right red x l ∷ k) m r (h.0, h.2, b refl, a) h.1
            (λ w. cc (w, h.3)))
  ]
