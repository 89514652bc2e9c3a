-- ===== src/RbTree/Neighbour.antt =====
-- `rb_tree_next` and `rb_tree_prev`: the next node in the order, and the one before.
use x_os_tmp.Base.{
  ℕ, zero, suc, ◌+◌, ◌≤◌, ◌<◌, ◌≡◌, ◌≢◌, refl, sym, ap, subst, ◌∙◌, ◌==◌, if◌then◌else◌, ◌>>=◌,
  false, Option, none, some, List, [], ◌∷◌, ◌++◌, length, arith, eq→==, ne→==, ok, one, one_self,
  ne_of_one, length-append,
}
use mathlib.Core.List.{append_assoc, append-nil}
use x_os_tmp.RbTree.{
  Color, Side, left, right, opp, Nodes, nil, outermost, climb, neighbour, rb_tree_next,
  rb_tree_prev,
}
use x_os_tmp.RbTree.Shape.{
  Tree, leaf, bin, join, Frame, frame, plug, occ, occ_above, occ-plug, Sub, Hole,
}
use x_os_tmp.RbTree.Rebalance.{At, Whole, Hole-top, other-ne}
use x_os_tmp.RbTree.Insertion.{IsTree}
use x_os_tmp.RbTree.Link.{down-At}

-- The nodes in the direction d: upwards for the side right, downwards for the side left.
abbrev pub seq : Side → Tree → List ℕ
seq d leaf = []
seq right (bin c l x r) = seq right l ++ (x ∷ seq right r)
seq left (bin c l x r) = seq left r ++ (x ∷ seq left l)

-- The nodes of the frames that come behind the place.
abbrev pub after : Side → List Frame → List ℕ
after d [] = []
after right (frame left c x u ∷ k) = x ∷ (seq right u ++ after right k)
after right (frame right c x u ∷ k) = after right k
after left (frame right c x u ∷ k) = x ∷ (seq left u ++ after left k)
after left (frame left c x u ∷ k) = after left k

abbrev pub first : List ℕ → Option ℕ
first [] = none
first (x ∷ xs) = some x

first-append : (xs ys : List ℕ) (y : ℕ) → first xs ≡ some y → first (xs ++ ys) ≡ some y
first-append [] ys y h = cc
first-append (x ∷ xs) ys y h = h

-- The place of a node is behind the nodes of `seq` before it, and before those of `after`.
pub seq-plug :
    (d : Side) (k : List Frame) (t : Tree)
    → (before : List ℕ) × (seq d (plug k t) ≡ before ++ (seq d t ++ after d k))
seq-plug left [] t = ([], simp append-nil)
seq-plug right [] t = ([], simp append-nil)
seq-plug right (frame left c x u ∷ k) t =
    let h = seq-plug right k (bin c t x u) in (h.0, h.1 ∙ simp append_assoc)
seq-plug right (frame right c x u ∷ k) t =
    let h = seq-plug right k (bin c u x t) in
    (h.0 ++ (seq right u ++ (x ∷ [])), h.1 ∙ simp append_assoc)
seq-plug left (frame right c x u ∷ k) t =
    let h = seq-plug left k (bin c u x t) in (h.0, h.1 ∙ simp append_assoc)
seq-plug left (frame left c x u ∷ k) t =
    let h = seq-plug left k (bin c t x u) in
    (h.0 ++ (seq left u ++ (x ∷ [])), h.1 ∙ simp append_assoc)

-- Every node of a tree is at a place.
pub place-At :
    (s : Nodes) (head : ℕ) (k : List Frame) (t : Tree)
    → Whole s head (plug k t)
    → (p : ℕ) × (a : ℕ) × At s head k p a t
place-At s head [] t w =
    (head, s.child left head, record { sub = w.sub; hole = (refl, refl); nil_black = w.nil_black })
place-At s head (frame d c x u ∷ k) t w =
    let h = place-At s head k (join d c t x u) w in
    (x, s.child d x, down-At s head k h.0 h.1 d c t x u h.2)

climb-first :
    (d : Side) (k : List Frame) (f : ℕ) (s : Nodes) (head p a root : ℕ)
    → length k < f
    → root ≡ s.child left head
    → Hole s head k p a
    → s.parent a ≡ p
    → ((z : ℕ) → one z a + occ_above z k + one z head + one z nil ≤ 1)
    → climb f (opp d) root a s ≡ ok (first (after d k))
unfolding climb
climb-first d k zero s head p a root hf hr h hp o = absurd (omega (arith, hf))
climb-first d [] (suc f) s head p a root hf hr h hp o = rw (eq→== a root (sym (hr ∙ h.1))) refl
climb-first d (frame e c x u ∷ k) (suc f) s head p a root hf hr h hp o =
    rw (ne→== a root far, hp ∙ h.0)
      (turn d e h (
        climb-first d k f s head (s.parent x) x root (omega (arith, hf)) hr h.4 refl
          (λ z. omega (arith, o z))))
  where
    far : a ≢ root
    far =
        ne_of_one a root
          (omega (arith, o a, one_self a, ap (one a) hr, Hole-top s head (frame e c x u) k p a h a))

    off : (e : Side) → Hole s head (frame e c x u ∷ k) p a → (s.child (opp e) x == a) ≡ false
    off e h =
        other-ne s x (s.child (opp e) x) a u h.3 (omega (arith, o a, one_self a))
          (ne_of_one a nil (omega (arith, o a, one_self a)))

    turn :
        (d e : Side)
        → Hole s head (frame e c x u ∷ k) p a
        → climb f (opp d) root x s ≡ ok (first (after d k))
        → (if s.child (opp d) x == a then ok (some x) else climb f (opp d) root x s)
          ≡ ok (first (after d (frame e c x u ∷ k)))
    turn right left h v = rw (eq→== _ _ h.1) refl
    turn left right h v = rw (eq→== _ _ h.1) refl
    turn right right h v = rw (off right h) v
    turn left left h v = rw (off left h) v

-- The end of a subtree on one side is the first of its nodes in the direction away from there.
abbrev Ends : Nodes → ℕ → Side → ℕ → Tree → Type 0
Ends s f d a t = (y : ℕ) × (outermost f (opp d) a s ≡ ok y) × (first (seq d t) ≡ some y)

full : (d : Side) (c : Color) (l : Tree) (z : ℕ) (r : Tree) → 1 ≤ length (seq d (bin c l z r))
full right c l z r = omega (arith, length-append (seq right l) (z ∷ seq right r))
full left c l z r = omega (arith, length-append (seq left r) (z ∷ seq left l))

outermost-step :
    (s : Nodes) (d : Side) (f x : ℕ) (near : Tree) (ys : List ℕ)
    → Sub s x (s.child (opp d) x) near
    → occ nil near ≡ 0
    → (1 ≤ length (seq d near) → Ends s f d (s.child (opp d) x) near)
    → (y : ℕ) × (outermost (suc f) (opp d) x s ≡ ok y) × (first (seq d near ++ (x ∷ ys)) ≡ some y)
unfolding outermost
outermost-step s d f x leaf ys h o ih = (x, rw (eq→== _ nil h) refl, refl)
outermost-step s d f x (bin c l z r) ys h o ih =
    let k = ih (full d c l z r) in
    (
      k.0,
      rw (ne→== (s.child (opp d) x) nil (λ e. ne_of_one nil z (omega arith) (sym e ∙ h.0))) (k.1),
      first-append (seq d (bin c l z r)) (x ∷ ys) k.0 k.2,
    )

outermost-Ends :
    (s : Nodes) (d : Side) (t : Tree) (f p a : ℕ)
    → length (seq d t) ≤ f
    → 1 ≤ length (seq d t)
    → Sub s p a t
    → occ nil t ≡ 0
    → Ends s f d a t
outermost-Ends s d leaf f p a hf m h o = absurd (omega (arith, m))
outermost-Ends s d (bin c l x r) zero p a hf m h o = absurd (omega (arith, hf, m))
outermost-Ends s right (bin c l x r) (suc f) p a hf m h o = rw (h.0) (
    outermost-step s right f x l (seq right r) h.3 (omega arith) (λ m'.
      outermost-Ends s right l f x (s.child left x)
        (omega (arith, hf, length-append (seq right l) (x ∷ seq right r))) m' h.3 (omega arith)))
outermost-Ends s left (bin c l x r) (suc f) p a hf m h o = rw (h.0) (
    outermost-step s left f x r (seq left l) h.4 (omega arith) (λ m'.
      outermost-Ends s left r f x (s.child right x)
        (omega (arith, hf, length-append (seq left r) (x ∷ seq left l))) m' h.4 (omega arith)))

-- The subtree of a node on the side d.
abbrev pub side : Side → Tree → Tree → Tree
side left l r = l
side right l r = r

neighbour-first :
    (d : Side) (s : Nodes) (head : ℕ) (k : List Frame) (c : Color) (l : Tree) (x : ℕ) (r : Tree)
    (fuel : ℕ)
    → IsTree s head (plug k (bin c l x r))
    → length k < fuel
    → length (seq d (side d l r)) ≤ fuel
    → neighbour fuel d head x s ≡ ok (first (seq d (side d l r) ++ after d k))
unfolding neighbour
neighbour-first d s head k c l x r fuel h hk hs = look d (side d l r) refl (below d) hs
  where
    P : (p : ℕ) × (a : ℕ) × At s head k p a (bin c l x r)
    P = place-At s head k (bin c l x r) h.whole

    A : At s head k (P.0) (P.1) (bin c l x r)
    A = P.2

    below : (d : Side) → Sub s x (s.child d x) (side d l r)
    below left = A.sub.3
    below right = A.sub.4

    o : (z : ℕ) → one z x + occ z l + occ z r + occ_above z k + one z head + one z nil ≤ 1
    o z = omega (arith, h.once z, occ-plug z k (bin c l x r))

    up : (d : Side) → climb fuel (opp d) (s.child left head) x s ≡ ok (first (after d k))
    up d =
        climb-first d k fuel s head (P.0) x (s.child left head) hk refl
          (subst (Hole s head k (P.0)) A.sub.0 A.hole) A.sub.2 (λ z. omega (arith, o z))

    no_nil : (d : Side) → occ nil (side d l r) ≡ 0
    no_nil left = omega (arith, o nil, one_self nil)
    no_nil right = omega (arith, o nil, one_self nil)

    look :
        (d : Side) (t : Tree)
        → t ≡ side d l r
        → Sub s x (s.child d x) t
        → length (seq d t) ≤ fuel
        → (if s.child d x == nil
            then climb fuel (opp d) (s.child left head) x s
            else (do y ← outermost fuel (opp d) (s.child d x) s; ok (some y)))
          ≡ ok (first (seq d t ++ after d k))
    look d leaf e b hs = rw (eq→== _ nil b) (up d)
    look d (bin q a y z) e b hs =
        let ends =
          outermost-Ends s d (bin q a y z) fuel x (s.child d x) hs (full d q a y z) b
            (subst (λ w. occ nil w ≡ 0) (sym e) (no_nil d)) in
        let m = subst (λ w. occ nil w ≡ 0) (sym e) (no_nil d) in
        rw
          (
            ne→== (s.child d x) nil (λ n. ne_of_one nil y (omega (arith, m)) (sym n ∙ b.0)),
            ends.1,
            first-append (seq d (bin q a y z)) (after d k) ends.0 ends.2,
          )
          refl

-- For a node of a red-black tree, with fuel above its depth and the size of its subtrees,
-- rb_tree_next and rb_tree_prev end: the first answers the node that follows in the order of the
-- nodes, the second the one that follows in the reverse order, and NULL where none follows.
pub rb_tree_next_prev-first :
    (s : Nodes) (head : ℕ) (k : List Frame) (c : Color) (l : Tree) (x : ℕ) (r : Tree) (fuel : ℕ)
    → IsTree s head (plug k (bin c l x r))
    → length k < fuel
    → length (seq right r) ≤ fuel
    → length (seq left l) ≤ fuel
    → (rb_tree_next fuel head x s ≡ ok (first (seq right r ++ after right k)))
      × ((before : List ℕ) × (seq right (plug k (bin c l x r))
            ≡ before ++ (x ∷ (seq right r ++ after right k))))
      × (rb_tree_prev fuel head x s ≡ ok (first (seq left l ++ after left k)))
      × ((before : List ℕ) × (seq left (plug k (bin c l x r))
            ≡ before ++ (x ∷ (seq left l ++ after left k))))
unfolding rb_tree_next rb_tree_prev
rb_tree_next_prev-first s head k c l x r fuel h hk hr hl =
    let up = seq-plug right k (bin c l x r) in
    let down = seq-plug left k (bin c l x r) in
    (
      neighbour-first right s head k c l x r fuel h hk hr,
      (up.0 ++ seq right l, up.1 ∙ simp append_assoc),
      neighbour-first left s head k c l x r fuel h hk hl,
      (down.0 ++ seq left r, down.1 ∙ simp append_assoc),
    )
