-- ===== src/RbTree/Loop.antt =====
-- The rounds of `rb_tree_rebalance` one after the other, up to the root.
use x_os_tmp.Base.{
  ℕ, zero, suc, ◌+◌, ◌≤◌, ◌<◌, ◌≡◌, ◌≢◌, refl, ap, subst, ◌∙◌, if◌then◌else◌, List, [], ◌∷◌, length,
  arith, eq→==, ne→==, Bool-cases, inl, inr, set_at, set_at_self, set_at_ne, ok,
}
use x_os_tmp.RbTree.{
  Color, red, black, is_red, Side, left, right, opp, Nodes, nil, set_color, rotate_up, side_of,
  rebalance_from,
}
use x_os_tmp.RbTree.Shape.{
  Tree, leaf, bin, join, Frame, frame, plug, one, one_self, ne_of_one, occ, occ_above, occ-join,
  Once, Sub, Sub-root, Sub-join, Parts, join-Parts,
}
use x_os_tmp.RbTree.Frame.{Same, Sub-frame, Hole-frame}
use x_os_tmp.RbTree.Balance.{root_color, blacken, settled, rebalanced, IsRbAbove, BlackTop}
use x_os_tmp.RbTree.Rebalance.{
  set_black, blacken-Sub, Sub-color, Hole-top, side_of-Hole, At, Whole, At-Whole, up-At,
  outer-Whole, inner-Whole,
}

occ-blacken : (z : ℕ) (t : Tree) → occ z (blacken t) ≡ occ z t
occ-blacken z leaf = refl
occ-blacken z (bin c l x r) = refl

-- The store of the next round.
abbrev passed : ℕ → ℕ → ℕ → Nodes → Nodes
passed uncle x g s = set_color g red (set_color x black (set_color uncle black s))

passed-Same : (s : Nodes) (a x g z : ℕ) → z ≢ a → z ≢ x → z ≢ g → Same s (passed a x g s) z
passed-Same s a x g z ha hx hg = record {
  color =
      set_at_ne (set_at (set_at s.color a black) x black) g red z hg
      ∙ set_at_ne (set_at s.color a black) x black z hx
      ∙ set_at_ne s.color a black z ha;
  parent = refl;
  child = λ e. refl;
}

blackened-Same :
    (s : Nodes) (a x g z : ℕ) → z ≢ x → z ≢ g → Same (set_color a black s) (passed a x g s) z
blackened-Same s a x g z hx hg = record {
  color =
      set_at_ne (set_at (set_at s.color a black) x black) g red z hg
      ∙ set_at_ne (set_at s.color a black) x black z hx;
  parent = refl;
  child = λ e. refl;
}

-- With a red uncle, the two reds go up to the grandparent.
passed-At :
    (d e : Side) (s : Nodes) (head : ℕ) (k : List Frame) (p n x g : ℕ) (cg : Color) (t u v : Tree)
    → At s head (frame d red x u ∷ frame e cg g v ∷ k) p n t
    → Once head t (frame d red x u ∷ frame e cg g v ∷ k)
    → At
        (passed (s.child (opp e) g) x g s)
        head
        k
        (s.parent g)
        g
        (join e red (join d black t x u) g (blacken v))
passed-At d e s head k p n x g cg t u v h o = record {
  sub =
      Sub-join s' (s.parent g) e red (join d black t x u) g (blacken v)
        (set_at_self (set_at (set_at s.color a black) x black) g red) refl
        (rw (P.at) (
          Sub-join s' g d black t x u
            (set_at_ne (set_at (set_at s.color a black) x black) g red x
                (ne_of_one x g (omega (arith, o x, one_self x)))
              ∙ set_at_self (set_at s.color a black) x black)
            Q.parent (Sub-frame s s' x (s.child d x) t (λ z m. apart z (omega arith)) Q.near)
            (Sub-frame s s' x (s.child (opp d) x) u (λ z m. apart z (omega arith)) Q.far)))
        (Sub-frame (set_color a black s) s' g a (blacken v)
          (λ z m.
            blackened-Same s a x g z (ne_of_one z x (omega (arith, o z, occ-blacken z v)))
              (ne_of_one z g (omega (arith, o z, occ-blacken z v))))
          (blacken-Sub s g a v (λ z. omega (arith, o z)) R.far));
  hole = Hole-frame s s' head k (s.parent g) g (λ z m. apart z (omega arith)) two.hole;
  nil_black =
      set_at_ne (set_at (set_at s.color a black) x black) g red nil
        (ne_of_one nil g (omega (arith, o nil, one_self nil)))
      ∙ set_black (set_at s.color a black) x nil (set_black s.color a nil h.nil_black);
}
  where
    a : ℕ
    a = s.child (opp e) g

    s' : Nodes
    s' = passed a x g s

    one_up : At s head (frame e cg g v ∷ k) (s.parent x) x (join d red t x u)
    one_up = up-At s head d red x u (frame e cg g v ∷ k) p n t h

    two : At s head k (s.parent g) g (join e cg (join d red t x u) g v)
    two = up-At s head e cg g v k (s.parent x) x (join d red t x u) one_up

    R : Parts s (s.parent g) g e cg (join d red t x u) g v
    R = join-Parts s (s.parent g) g e cg (join d red t x u) g v two.sub

    P : Parts s g (s.child e g) d red t x u
    P = join-Parts s g (s.child e g) d red t x u R.near

    Q : Parts s g x d red t x u
    Q = subst (λ w. Parts s g w d red t x u) P.at P

    apart : (z : ℕ) → 1 ≤ occ z t + occ z u + occ_above z k + one z head → Same s s' z
    apart z m =
        passed-Same s a x g z (ne_of_one z a (omega (arith, o z, Sub-root s g a v R.far z)))
          (ne_of_one z x (omega (arith, o z))) (ne_of_one z g (omega (arith, o z)))

-- One round of the loop, by its tests.
round_root : (f n : ℕ) (s : Nodes) → rebalance_from (suc f) n n s ≡ ok (set_color n black s)
unfolding rebalance_from
round_root f n s = rw (eq→== n n refl) refl

round_black :
    (f root n x : ℕ) (s : Nodes)
    → n ≢ root
    → s.parent n ≡ x
    → s.color x ≡ black
    → rebalance_from (suc f) root n s ≡ ok s
unfolding rebalance_from
round_black f root n x s h hx hc = rw (ne→== n root h, hx, hc) refl

round_red :
    (e : Side) (f root n x g : ℕ) (s : Nodes)
    → n ≢ root
    → s.parent n ≡ x
    → s.parent x ≡ g
    → s.color x ≡ red
    → side_of g x s ≡ e
    → rebalance_from (suc f) root n s ≡ (
        if is_red (s.color (s.child (opp e) g))
        then rebalance_from f root g (passed (s.child (opp e) g) x g s)
        else ok (rotate_up e n x g s))
unfolding rebalance_from
round_red e f root n x g s h hx hg hc he = rw (ne→== n root h, hx, hg, hc, he) refl

-- The end of the loop without a red uncle, for both sides of both nodes.
rotate_up-Whole :
    (d e : Side) (s : Nodes) (head : ℕ) (k : List Frame) (p n x g : ℕ) (cg : Color) (t u v : Tree)
    → At s head (frame d red x u ∷ frame e cg g v ∷ k) p n t
    → Once head t (frame d red x u ∷ frame e cg g v ∷ k)
    → 1 ≤ occ n t
    → Whole (rotate_up e n x g s) head (plug k (settled d e t x u g v))
rotate_up-Whole left left s head k p n x g cg t u v h o m =
    outer-Whole left s head k p n x g red cg t u v h o m
rotate_up-Whole right right s head k p n x g cg t u v h o m =
    outer-Whole right s head k p n x g red cg t u v h o m
rotate_up-Whole left right s head k p n x g cg leaf u v h o m = absurd (omega (arith, m))
rotate_up-Whole left right s head k p n x g cg (bin q l y r) u v h o m = rw (h.sub.0) (
    inner-Whole right s head k p y x g red cg q r l u v
      (subst (λ w. At s head (frame left red x u ∷ frame right cg g v ∷ k) p w (bin q l y r))
        h.sub.0 h)
      o)
rotate_up-Whole right left s head k p n x g cg leaf u v h o m = absurd (omega (arith, m))
rotate_up-Whole right left s head k p n x g cg (bin q l y r) u v h o m = rw (h.sub.0) (
    inner-Whole left s head k p y x g red cg q l r u v
      (subst (λ w. At s head (frame right red x u ∷ frame left cg g v ∷ k) p w (bin q l y r))
        h.sub.0 h)
      o)

Once-up :
    (head : ℕ) (d e : Side) (c c' q : Color) (t u v : Tree) (x g : ℕ) (k : List Frame)
    → Once head t (frame d c x u ∷ frame e q g v ∷ k)
    → Once head (join e red (join d c' t x u) g (blacken v)) k
Once-up head d e c c' q t u v x g k o z = omega (
  arith,
  o z,
  occ-join z e red (join d c' t x u) g (blacken v),
  occ-join z d c' t x u,
  occ-blacken z v,
)

occ-grand : (d e : Side) (t u v : Tree) (x g : ℕ) → 1 ≤ occ g (join e red (join d black t x u) g v)
occ-grand d e t u v x g = omega (arith, occ-join g e red (join d black t x u) g v, one_self g)

apart_root :
    (f : Frame) (k : List Frame) (s : Nodes) (head p x root : ℕ) (t : Tree)
    → At s head (f ∷ k) p x t
    → Once head t (f ∷ k)
    → 1 ≤ occ x t
    → root ≡ s.child left head
    → x ≢ root
apart_root f k s head p x root t h o m hr =
    ne_of_one x root (omega (arith, o x, ap (one x) hr, Hole-top s head f k p x h.hole x))

above :
    (e : Side) (c : Color) (g : ℕ) (v : Tree) (k : List Frame) (n : ℕ)
    → BlackTop (frame e c g v ∷ k)
    → IsRbAbove (frame e c g v ∷ k) n
    → IsRbAbove k (suc n)
above e red g v k n b a = cc
above e black g v k n b a = a.1

-- With the subtree of the node and the frames above it in the store, whose leaf nil is black,
-- which the code does not see to, each node met once, frames that are red-black, and fuel above
-- the number of frames, the loop of rb_tree_rebalance ends, and the pointers then stand for the
-- tree that the recolourings and rotations on trees lead to.
pub rebalance_from-Whole :
    (k : List Frame) (f root : ℕ) (s : Nodes) (head p x n : ℕ) (t : Tree)
    → length k < f
    → root ≡ s.child left head
    → At s head k p x t
    → Once head t k
    → 1 ≤ occ x t
    → s.parent x ≡ p
    → IsRbAbove k n
    → (s' : Nodes) × (rebalance_from f root x s ≡ ok s') × Whole s' head (rebalanced k t)
unfolding rebalanced
rebalance_from-Whole k zero root s head p x n t hf hr h o m hp a = absurd (omega (arith, hf))
rebalance_from-Whole [] (suc f) root s head p x n t hf hr h o m hp a = (
  set_color x black s,
  ap (λ w. rebalance_from (suc f) w x s) (hr ∙ h.hole.1) ∙ round_root f x s,
  record {
    sub =
        subst (λ w. Sub (set_color x black s) w (s.child left head) (blacken t)) h.hole.0
          (rw (h.hole.1) (blacken-Sub s p x t (λ z. omega (arith, o z)) h.sub));
    nil_black = set_black s.color x nil h.nil_black;
  },
)
rebalance_from-Whole (frame d black y u ∷ k) (suc f) root s head p x n t hf hr h o m hp a = (
  s,
  round_black f root x y s (apart_root (frame d black y u) k s head p x root t h o m hr)
      (hp ∙ h.hole.0) h.hole.2,
  At-Whole s head (frame d black y u ∷ k) p x t h,
)
rebalance_from-Whole (frame d red y u ∷ []) (suc f) root s head p x n t hf hr h o m hp a =
    absurd a.2
rebalance_from-Whole (frame d red y u ∷ frame e c g v ∷ k) (suc f) root s head p x n t hf hr h o m
      hp a =
    elim (Bool-cases (is_red (root_color v))) [
      | inl r ↦
          let next =
            rebalance_from-Whole k f root (passed (s.child (opp e) g) y g s) head (s.parent g) g
              (suc n) (join e red (join d black t y u) g (blacken v)) (omega (arith, hf)) hr
              (passed-At d e s head k p x y g c t u v h o)
              (Once-up head d e red black c t u v y g k o) (occ-grand d e t u (blacken v) y g) refl
              (above e c g v k n a.2 a.3) in
          rw r (next.0, (round ∙ (rw (uncle, r) refl)) ∙ next.1, next.2)
      | inr r ↦ rw r (
        rotate_up e x y g s,
        round ∙ (rw (uncle, r) refl),
        rotate_up-Whole d e s head k p x y g c t u v h o m,
      )
    ]
  where
    below : At s head (frame e c g v ∷ k) (s.parent y) y (join d red t y u)
    below = up-At s head d red y u (frame e c g v ∷ k) p x t h

    uncle : s.color (s.child (opp e) g) ≡ root_color v
    uncle = Sub-color s g (s.child (opp e) g) v h.nil_black below.hole.3

    round : rebalance_from (suc f) root x s ≡ (
        if is_red (s.color (s.child (opp e) g))
        then rebalance_from f root g (passed (s.child (opp e) g) y g s)
        else ok (rotate_up e x y g s))
    round =
        round_red e f root x y g s
          (apart_root (frame d red y u) (frame e c g v ∷ k) s head p x root t h o m hr)
          (hp ∙ h.hole.0) below.hole.0 h.hole.2
          (side_of-Hole s head e c g v k (s.parent y) y below.hole (omega (arith, o y, one_self y))
            (ne_of_one y nil (omega (arith, o y, one_self y))))
