-- ===== src/RbTree/Frame.antt =====
-- A change of the store at some nodes leaves the trees that do not hold them alone.
use x_os_tmp.Base.{
  ℕ, ◌+◌, ◌≤◌, ◌≡◌, ◌≢◌, sym, ap, ◌∙◌, ◌==◌, if◌then◌else◌, List, [], ◌∷◌, arith, eq→==, ne→==,
}
use x_os_tmp.RbTree.{Side, left, right, opp, Nodes, nil}
use x_os_tmp.RbTree.Shape.{
  Tree, leaf, bin, Frame, frame, one, one_self, one_ne, ne_of_one, occ, occ_above, Sub, Hole,
  Sub-root,
}

-- The fields of one node are as before.
pub record Same (s s' : Nodes) (z : ℕ) : Type 0 where
  pub color : s'.color z ≡ s.color z
  pub parent : s'.parent z ≡ s.parent z
  pub child : (e : Side) → s'.child e z ≡ s.child e z

pub Sub-frame :
    (s s' : Nodes) (p a : ℕ) (t : Tree)
    → ((z : ℕ) → 1 ≤ occ z t → Same s s' z)
    → Sub s p a t
    → Sub s' p a t
Sub-frame s s' p a leaf f h = h
Sub-frame s s' p a (bin c l x r) f h =
    let here = f x (omega (arith, one_self x)) in
    (
      h.0,
      here.color ∙ h.1,
      here.parent ∙ h.2,
      rw (here.child left) (Sub-frame s s' x (s.child left x) l (λ z m. f z (omega arith)) h.3),
      rw (here.child right) (Sub-frame s s' x (s.child right x) r (λ z m. f z (omega arith)) h.4),
    )

pub Hole-frame :
    (s s' : Nodes) (head : ℕ) (k : List Frame) (p a : ℕ)
    → ((z : ℕ) → 1 ≤ occ_above z k + one z head → Same s s' z)
    → Hole s head k p a
    → Hole s' head k p a
Hole-frame s s' head [] p a f h = (h.0, (f head (omega (arith, one_self head))).child left ∙ h.1)
Hole-frame s s' head (frame d c x u ∷ k) p a f h =
    let here = f x (omega (arith, one_self x)) in
    (
      h.0,
      here.child d ∙ h.1,
      here.color ∙ h.2,
      rw (here.child (opp d))
          (Sub-frame s s' x (s.child (opp d) x) u (λ z m. f z (omega arith)) h.3),
      rw (here.parent) (Hole-frame s s' head k (s.parent x) x (λ z m. f z (omega arith)) h.4),
    )

-- A subtree gets another parent.
pub Sub-moved :
    (s s' : Nodes) (p q a : ℕ) (t : Tree)
    → ((z : ℕ) → occ z t ≤ 1)
    → ((z : ℕ) → 1 ≤ occ z t → z ≢ a → Same s s' z)
    → (1 ≤ occ a t → (s'.color a ≡ s.color a) × ((e : Side) → s'.child e a ≡ s.child e a))
    → (1 ≤ occ a t → s'.parent a ≡ q)
    → Sub s p a t
    → Sub s' q a t
Sub-moved s s' p q a leaf o f g up h = h
Sub-moved s s' p q a (bin c l x r) o f g up h =
    let e : a ≡ x = h.0 in
    let m : 1 ≤ occ a (bin c l x r) = rw e (omega (arith, one_self x)) in
    let kept = g m in
    (
      e,
      ap s'.color (sym e) ∙ kept.0 ∙ ap s.color e ∙ h.1,
      ap s'.parent (sym e) ∙ up m,
      rw (ap (s'.child left) (sym e) ∙ kept.1 left ∙ ap (s.child left) e) (
          Sub-frame s s' x (s.child left x) l
            (λ z i. f z (omega arith) (below z (omega (arith, i)) e)) h.3),
      rw (ap (s'.child right) (sym e) ∙ kept.1 right ∙ ap (s.child right) e) (
          Sub-frame s s' x (s.child right x) r
            (λ z i. f z (omega arith) (below z (omega (arith, i)) e)) h.4),
    )
  where
    below : (z : ℕ) → 1 ≤ occ z l + occ z r → a ≡ x → z ≢ a
    below z i e w = ne_of_one z x (omega (arith, o z)) (w ∙ e)

-- In the node above a place the pointer to the place is replaced.
pub Hole-relinked :
    (s s' : Nodes) (head : ℕ) (k : List Frame) (p a b : ℕ)
    → a ≢ nil
    → ((z : ℕ) → occ_above z k + one z head + one z a ≤ 1)
    → ((z : ℕ) → z ≢ p → 1 ≤ occ_above z k + one z head → Same s s' z)
    → s'.color p ≡ s.color p
    → s'.parent p ≡ s.parent p
    → s'.child left p ≡ (if s.child left p == a then b else s.child left p)
    → s'.child right p ≡ (if s.child left p == a then s.child right p else b)
    → Hole s head k p a
    → Hole s' head k p b
Hole-relinked s s' head [] p a b nn o f hc hp hl hr h =
    (h.0, ap (s'.child left) (sym h.0) ∙ (rw (eq→== _ _ (ap (s.child left) h.0 ∙ h.1)) at hl))
Hole-relinked s s' head (frame left c x u ∷ k) p a b nn o f hc hp hl hr h =
    let t = eq→== _ _ (ap (s.child left) h.0 ∙ h.1) in
    (
      h.0,
      ap (s'.child left) (sym h.0) ∙ rw t at hl,
      ap s'.color (sym h.0) ∙ hc ∙ ap s.color h.0 ∙ h.2,
      rw (ap (s'.child right) (sym h.0) ∙ (rw t at hr) ∙ ap (s.child right) h.0) (
          Sub-frame s s' x (s.child right x) u
            (λ z m. f z (λ w. ne_of_one z x (omega (arith, o z)) (w ∙ h.0)) (omega arith)) h.3),
      rw (ap s'.parent (sym h.0) ∙ hp ∙ ap s.parent h.0) (
          Hole-frame s s' head k (s.parent x) x
            (λ z m. f z (λ w. ne_of_one z x (omega (arith, o z)) (w ∙ h.0)) (omega arith)) h.4),
    )
Hole-relinked s s' head (frame right c x u ∷ k) p a b nn o f hc hp hl hr h =
    let t = ne→== _ _ (λ e. other (sym (ap (s.child left) h.0) ∙ e)) in
    (
      h.0,
      ap (s'.child right) (sym h.0) ∙ rw t at hr,
      ap s'.color (sym h.0) ∙ hc ∙ ap s.color h.0 ∙ h.2,
      rw (ap (s'.child left) (sym h.0) ∙ (rw t at hl) ∙ ap (s.child left) h.0) (
          Sub-frame s s' x (s.child left x) u
            (λ z m. f z (λ w. ne_of_one z x (omega (arith, o z)) (w ∙ h.0)) (omega arith)) h.3),
      rw (ap s'.parent (sym h.0) ∙ hp ∙ ap s.parent h.0) (
          Hole-frame s s' head k (s.parent x) x
            (λ z m. f z (λ w. ne_of_one z x (omega (arith, o z)) (w ∙ h.0)) (omega arith)) h.4),
    )
  where
    other : s.child left x ≢ a
    other e =
        let r = Sub-root s x (s.child left x) u h.3 a in
        ne_of_one a (s.child left x) (omega (arith, r, o a, one_self a, one_ne a nil nn)) (sym e)
