-- ===== src/RbTree/Rebalance.antt =====
-- `rb_tree_rebalance` on the pointers is `rebalanced` on the tree, and it ends.
use x_os_tmp.Base.{
  ℕ, ◌+◌, ◌≤◌, ◌≡◌, ◌≢◌, refl, sym, ap, subst, ◌∙◌, ◌==◌, false, List, [], ◌∷◌, arith, eq→==, ne→==,
  Bool-cases, inl, inr, set_at, set_at_self, set_at_ne,
}
use x_os_tmp.RbTree.{
  Color, red, black, Side, left, right, opp, Nodes, nil, rotate, raise_parent, rotate_up, side_of,
  set_color,
}
use x_os_tmp.RbTree.Shape.{
  Tree, leaf, bin, join, Frame, frame, plug, one, one_self, one_ne, ne_of_one, occ, occ_above,
  occ-join, Once, Sub, Hole, Sub-root, Sub-join, Hole-plug, Parts, join-Parts,
}
use x_os_tmp.RbTree.Frame.{Same, Sub-frame, Hole-frame}
use x_os_tmp.RbTree.Rotate.{Turned, rotate-Turned}
use x_os_tmp.RbTree.Balance.{root_color, blacken, outer}

-- A change of one colour is seen at one node alone.
pub colored-Same : (s : Nodes) (a : ℕ) (c : Color) (z : ℕ) → z ≢ a → Same s (set_color a c s) z
colored-Same s a c z h = record {
  color = set_at_ne s.color a c z h;
  parent = refl;
  child = λ e. refl;
}

colored2-Same :
    (s : Nodes) (a b : ℕ) (c d : Color) (z : ℕ)
    → z ≢ a
    → z ≢ b
    → Same s (set_color b d (set_color a c s)) z
colored2-Same s a b c d z h k = record {
  color = set_at_ne (set_at s.color a c) b d z k ∙ set_at_ne s.color a c z h;
  parent = refl;
  child = λ e. refl;
}

pub set_black : (f : ℕ → Color) (a z : ℕ) → f z ≡ black → set_at f a black z ≡ black
set_black f a z h = elim (Bool-cases (z == a)) [ inl e ↦ rw e refl | inr e ↦ rw e h ]

pub blacken-Sub :
    (s : Nodes) (p a : ℕ) (t : Tree)
    → ((z : ℕ) → occ z t ≤ 1)
    → Sub s p a t
    → Sub (set_color a black s) p a (blacken t)
blacken-Sub s p a leaf o h = h
blacken-Sub s p a (bin c l x r) o h =
    let apart = λ (z : ℕ) (m : 1 ≤ occ z l + occ z r).
      colored-Same s a black z (λ e. ne_of_one z x (omega (arith, o z)) (e ∙ h.0)) in
    (
      h.0,
      ap (set_at s.color a black) (sym h.0) ∙ set_at_self s.color a black,
      h.2,
      Sub-frame s (set_color a black s) x (s.child left x) l (λ z m. apart z (omega arith)) h.3,
      Sub-frame s (set_color a black s) x (s.child right x) r (λ z m. apart z (omega arith)) h.4,
    )

pub Sub-color :
    (s : Nodes) (p a : ℕ) (t : Tree) → s.color nil ≡ black → Sub s p a t → s.color a ≡ root_color t
Sub-color s p a leaf b h = ap s.color h ∙ b
Sub-color s p a (bin c l x r) b h = ap s.color h.0 ∙ h.1

-- The pointer in the head is one of the frames' nodes, if there are any.
pub Hole-top :
    (s : Nodes) (head : ℕ) (f : Frame) (k : List Frame) (p a : ℕ)
    → Hole s head (f ∷ k) p a
    → (z : ℕ) → one z (s.child left head) ≤ occ_above z (f ∷ k)
Hole-top s head (frame d c x u) [] p a h z = rw (h.4.1) (omega arith)
Hole-top s head (frame d c x u) (g ∷ k) p a h z =
    omega (arith, Hole-top s head g k (s.parent x) x h.4 z)

-- Whether the place is the right or the left child is what the test of the source says.
pub side_of-Hole :
    (s : Nodes) (head : ℕ) (d : Side) (c : Color) (x : ℕ) (u : Tree) (k : List Frame) (p a : ℕ)
    → Hole s head (frame d c x u ∷ k) p a
    → occ a u ≡ 0
    → a ≢ nil
    → side_of x a s ≡ d
side_of-Hole s head left c x u k p a h o n = rw (eq→== _ _ h.1) refl
side_of-Hole s head right c x u k p a h o n =
    rw
      (ne→== _ _ (λ e.
        ne_of_one a (s.child left x)
          (omega (arith, Sub-root s x (s.child left x) u h.3 a, one_ne a nil n)) (sym e)))
      refl

-- The other child of the node above the place is not the node at the place.
pub other-ne :
    (s : Nodes) (x b a : ℕ) (u : Tree) → Sub s x b u → occ a u ≡ 0 → a ≢ nil → (b == a) ≡ false
other-ne s x b a u h o n =
    ne→== b a (λ e. ne_of_one a b (omega (arith, Sub-root s x b u h a, one_ne a nil n)) (sym e))

-- The tree at a place and what is around it, in a store with a black `nil`.
pub record At (s : Nodes) (head : ℕ) (k : List Frame) (p x : ℕ) (t : Tree) : Type 0 where
  pub sub : Sub s p x t
  pub hole : Hole s head k p x
  pub nil_black : s.color nil ≡ black

-- The whole tree below the head.
pub record Whole (s : Nodes) (head : ℕ) (t : Tree) : Type 0 where
  pub sub : Sub s head (s.child left head) t
  pub nil_black : s.color nil ≡ black

pub At-Whole :
    (s : Nodes) (head : ℕ) (k : List Frame) (p x : ℕ) (t : Tree)
    → At s head k p x t
    → Whole s head (plug k t)
At-Whole s head k p x t h = record {
  sub = Hole-plug s head k p x t h.hole h.sub;
  nil_black = h.nil_black;
}

-- The rotation at the grandparent with its two changes of colour, for a tree `a` on the side e of
-- the node y on the side e of g.
raise_parent-At :
    (e : Side) (s : Nodes) (head : ℕ) (k : List Frame) (q g y : ℕ) (cg cy : Color) (a b v : Tree)
    → At s head k q g (join e cg (join e cy a y b) g v)
    → ((z : ℕ)
        → one z g + one z y + occ z a + occ z b + occ z v + occ_above z k + one z head + one z nil
          ≤ 1)
    → At (raise_parent e y g s) head k q y (join e black a y (join e red b g v))
unfolding raise_parent
raise_parent-At e s head k q g y cg cy a b v h o = record {
  sub =
      Sub-join s' q e black a y (join e red b g v)
        (set_at_ne (set_at s₁.color y black) g red y
            (ne_of_one y g (omega (arith, o y, one_self y)))
          ∙ set_at_self s₁.color y black)
        P.parent (Sub-frame s₁ s' y (s₁.child e y) a (λ z m. apart z (omega arith)) P.near)
        (rw (Q.at) (
          Sub-join s' y e red b g v (set_at_self (set_at s₁.color y black) g red) Q.parent
            (Sub-frame s₁ s' g (s₁.child e g) b (λ z m. apart z (omega arith)) Q.near)
            (Sub-frame s₁ s' g (s₁.child (opp e) g) v (λ z m. apart z (omega arith)) Q.far)));
  hole = Hole-frame s₁ s' head k q y (λ z m. apart z (omega arith)) turned.1;
  nil_black =
      set_at_ne (set_at s₁.color y black) g red nil
        (ne_of_one nil g (omega (arith, o nil, one_self nil)))
      ∙ set_black s₁.color y nil (ap (λ f. f nil) turned.2 ∙ h.nil_black);
}
  where
    s₁ : Nodes
    s₁ = rotate (opp e) g s

    s' : Nodes
    s' = set_color g red (set_color y black s₁)

    turn :
        (e : Side)
        → Sub s q g (join e cg (join e cy a y b) g v)
        → Turned s (rotate (opp e) g s) head k q y (join e cy a y (join e cg b g v))
    turn left u = rotate-Turned right s head k q g y cg cy v b a u h.hole (λ z. omega (arith, o z))
    turn right u = rotate-Turned left s head k q g y cg cy v b a u h.hole (λ z. omega (arith, o z))

    turned : Turned s s₁ head k q y (join e cy a y (join e cg b g v))
    turned = turn e h.sub

    P : Parts s₁ q y e cy a y (join e cg b g v)
    P = join-Parts s₁ q y e cy a y (join e cg b g v) turned.0

    Q : Parts s₁ y (s₁.child (opp e) y) e cg b g v
    Q = join-Parts s₁ y (s₁.child (opp e) y) e cg b g v P.far

    apart : (z : ℕ) → 1 ≤ occ z a + occ z b + occ z v + occ_above z k + one z head → Same s₁ s' z
    apart z m =
        colored2-Same s₁ y g black red z (ne_of_one z y (omega (arith, o z)))
          (ne_of_one z g (omega (arith, o z)))

-- One frame less: the node of the frame with the place as its child.
pub up-At :
    (s : Nodes) (head : ℕ) (d : Side) (c : Color) (x : ℕ) (u : Tree) (k : List Frame) (p a : ℕ)
    (t : Tree)
    → At s head (frame d c x u ∷ k) p a t
    → At s head k (s.parent x) x (join d c t x u)
up-At s head d c x u k p a t h = record {
  sub =
      Sub-join s (s.parent x) d c t x u h.hole.2 refl
        (rw (h.hole.1) (subst (λ w. Sub s w a t) h.hole.0 h.sub)) h.hole.3;
  hole = h.hole.4;
  nil_black = h.nil_black;
}

Sub-opp :
    (s : Nodes) (q y : ℕ) (e : Side) (c : Color) (a : Tree) (x : ℕ) (b : Tree)
    → Sub s q y (join (opp e) c a x b)
    → Sub s q y (join e c b x a)
Sub-opp s q y left c a x b h = h
Sub-opp s q y right c a x b h = h

-- The node, its parent and its grandparent in one line.
pub outer-Whole :
    (e : Side) (s : Nodes) (head : ℕ) (k : List Frame) (p n x g : ℕ) (c cg : Color) (t u v : Tree)
    → At s head (frame e c x u ∷ frame e cg g v ∷ k) p n t
    → Once head t (frame e c x u ∷ frame e cg g v ∷ k)
    → 1 ≤ occ n t
    → Whole (rotate_up e n x g s) head (plug k (outer e t x u g v))
unfolding rotate_up
outer-Whole e s head k p n x g c cg t u v h o m =
    let hu = h.hole.3 in
    rw
      (other-ne s x (s.child (opp e) x) n u hu (omega (arith, o n))
        (ne_of_one n nil (omega (arith, o n))))
      (let a =
          up-At s head e cg g v k (s.parent x) x (join e c t x u)
            (up-At s head e c x u (frame e cg g v ∷ k) p n t h) in
        At-Whole (raise_parent e x g s) head k (s.parent g) x (outer e t x u g v)
          (raise_parent-At e s head k (s.parent g) g x cg c t u v a (λ z. omega (arith, o z))))

-- The node between its parent and its grandparent.
pub inner-Whole :
    (e : Side) (s : Nodes) (head : ℕ) (k : List Frame) (p n x g : ℕ) (c cg q : Color)
    (a b u v : Tree)
    → At s head (frame (opp e) c x u ∷ frame e cg g v ∷ k) p n (join e q a n b)
    → Once head (join e q a n b) (frame (opp e) c x u ∷ frame e cg g v ∷ k)
    → Whole (rotate_up e n x g s) head (plug k (join e black (join e c u x a) n (join e red b g v)))
unfolding rotate_up
inner-Whole e s head k p n x g c cg q a b u v h o = rw (eq→== _ _ h.hole.1) (
    rw (P.parent) (
      At-Whole (raise_parent e n g s₁) head k (s₁.parent g) n _ (
        raise_parent-At e s₁ head k (s₁.parent g) g n cg q (join e c u x a) b v
          (up-At s₁ head e cg g v k (s.parent x) n (join e q (join e c u x a) n b) (record {
            sub = turned.0;
            hole = turned.1;
            nil_black = ap (λ f. f nil) turned.2 ∙ h.nil_black;
          }))
          (λ z. omega (arith, o z, occ-join z e q a n b, occ-join z e c u x a)))))
  where
    s₁ : Nodes
    s₁ = rotate e x s

    up : At s head (frame e cg g v ∷ k) (s.parent x) x (join (opp e) c (join e q a n b) x u)
    up = up-At s head (opp e) c x u (frame e cg g v ∷ k) p n (join e q a n b) h

    turned : Turned s s₁ head (frame e cg g v ∷ k) (s.parent x) n (join e q (join e c u x a) n b)
    turned =
        rotate-Turned e s head (frame e cg g v ∷ k) (s.parent x) x n c q u a b
          (Sub-opp s (s.parent x) x e c (join e q a n b) x u up.sub) up.hole
          (λ z. omega (arith, o z, occ-join z e c u x (join e q a n b)))

    N : Parts s₁ (s.parent x) n e q (join e c u x a) n b
    N = join-Parts s₁ (s.parent x) n e q (join e c u x a) n b turned.0

    P : Parts s₁ n (s₁.child e n) e c u x a
    P = join-Parts s₁ n _ e c u x a N.near
