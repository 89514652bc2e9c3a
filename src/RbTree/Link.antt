-- ===== src/RbTree/Link.antt =====
-- A new node hangs at the place where the descent ends, and the tree is rebalanced from there.
use x_os_tmp.Base.{
  ℕ, zero, suc, ◌+◌, ◌≤◌, ◌≡◌, refl, sym, ap, subst, ◌∙◌, ◌==◌, if◌then◌else◌, Bool, List, ◌∷◌,
  length, arith, eq→==, ne→==, Bool-cases, inl, inr, ok, length-append,
}
use x_os_tmp.RbTree.{Color, Side, left, right, Nodes, nil, set_parent, set_child}
use x_os_tmp.RbTree.Shape.{
  Tree, leaf, bin, join, Frame, frame, one, one_self, ne_of_one, occ, Once, Hole, join-Parts,
}
use x_os_tmp.RbTree.Balance.{inorder}
use x_os_tmp.RbTree.Rebalance.{At}
use x_os_tmp.RbTree.Keyed.{insert_below}
use x_os_tmp.RbTree.Insert.{place}

-- The other way down: to the child on the side d.
pub down-At :
    (s : Nodes) (head : ℕ) (k : List Frame) (q a : ℕ) (d : Side) (c : Color) (t : Tree) (x : ℕ)
    (u : Tree)
    → At s head k q a (join d c t x u)
    → At s head (frame d c x u ∷ k) x (s.child d x) t
down-At s head k q a d c t x u h =
    let P = join-Parts s q a d c t x u h.sub in
    record {
      sub = P.near;
      hole = (
        refl,
        refl,
        P.color,
        P.far,
        subst (λ w. Hole s head k w x) (sym P.parent) (subst (Hole s head k q) P.at h.hole),
      );
      nil_black = h.nil_black;
    }

module _ (less : ℕ → ℕ → Bool) (n head : ℕ) (s : Nodes) where
  abbrev pub linked : Side → ℕ → Nodes
  linked d x = set_parent n x (set_child d x n s)

  -- The descent ends at a free child of the last node of the place.
  pub record Descent (f : ℕ) (k : List Frame) (a : ℕ) (t : Tree) : Type 0 where
    pub d : Side
    pub c : Color
    pub x : ℕ
    pub u : Tree
    pub rest : List Frame
    pub frames : place less n k t ≡ frame d c x u ∷ rest
    pub run : insert_below f less n a s ≡ ok (linked d x)
    pub free : At s head (frame d c x u ∷ rest) x nil leaf

  step :
      (d : Side) (f a : ℕ)
      → (if less n a then left else right) ≡ d
      → insert_below (suc f) less n a s
        ≡ (if s.child d a == nil then ok (linked d a) else insert_below f less n (s.child d a) s)
  unfolding insert_below
  step d f a h = rw h refl

  down :
      (d : Side) (f : ℕ) (k : List Frame) (a : ℕ) (t : Tree) (c : Color) (near : Tree) (x : ℕ)
      (far : Tree)
      → place less n k t ≡ place less n (frame d c x far ∷ k) near
      → insert_below (suc f) less n x s
        ≡ (if s.child d x == nil then ok (linked d x) else insert_below f less n (s.child d x) s)
      → a ≡ x
      → At s head (frame d c x far ∷ k) x (s.child d x) near
      → ((z : ℕ) → occ z near + one z nil ≤ 1)
      → (1 ≤ length (inorder near) → Descent f (frame d c x far ∷ k) (s.child d x) near)
      → Descent (suc f) k a t
  down d f k a t c leaf x far e st ea h o ih = record {
    d = d;
    c = c;
    x = x;
    u = far;
    rest = k;
    frames = e;
    run = ap (λ w. insert_below (suc f) less n w s) ea ∙ st ∙ rw (eq→== _ _ h.sub) refl;
    free = subst (λ w. At s head (frame d c x far ∷ k) x w leaf) h.sub h;
  }
  down d f k a t c (bin q l y r) x far e st ea h o ih =
      let next = ih (omega (arith, length-append (inorder l) (y ∷ inorder r))) in
      record {
        d = next.d;
        c = next.c;
        x = next.x;
        u = next.u;
        rest = next.rest;
        frames = e ∙ next.frames;
        run =
            ap (λ w. insert_below (suc f) less n w s) ea
            ∙ st
            ∙ (rw
                (ne→== (s.child d x) nil
                  (λ w. ne_of_one y nil (omega (arith, o y, one_self y)) (sym h.sub.0 ∙ w)))
                next.run);
        free = next.free;
      }

  pub descend :
      (t : Tree) (f : ℕ) (k : List Frame) (q a : ℕ)
      → length (inorder t) ≤ f
      → At s head k q a t
      → Once head t k
      → 1 ≤ length (inorder t)
      → Descent f k a t
  descend leaf f k q a hf h o m = absurd (omega (arith, m))
  descend (bin c l x r) zero k q a hf h o m = absurd (omega (arith, hf, m))
  descend (bin c l x r) (suc f) k q a hf h o m = elim (Bool-cases (less n x)) [
    | inl e ↦
        let b = down-At s head k q a left c l x r h in
        down left f k a (bin c l x r) c l x r (rw e refl) (step left f x (rw e refl)) h.sub.0 b
          (λ z. omega (arith, o z))
          (λ m'.
            descend l f (frame left c x r ∷ k) x (s.child left x)
              (omega (arith, hf, length-append (inorder l) (x ∷ inorder r))) b
              (λ z. omega (arith, o z)) m')
    | inr e ↦
        let b = down-At s head k q a right c r x l h in
        down right f k a (bin c l x r) c r x l (rw e refl) (step right f x (rw e refl)) h.sub.0 b
          (λ z. omega (arith, o z))
          (λ m'.
            descend r f (frame right c x l ∷ k) x (s.child right x)
              (omega (arith, hf, length-append (inorder l) (x ∷ inorder r))) b
              (λ z. omega (arith, o z)) m')
  ]
