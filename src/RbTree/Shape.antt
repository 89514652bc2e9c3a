-- ===== src/RbTree/Shape.antt =====
-- The trees that the pointers stand for, with a place in them: the frames from the place up.
use x_os_tmp.Base.{ℕ, ◌+◌, ◌≤◌, ◌≡◌, refl, List, [], ◌∷◌, arith}
use x_os_tmp.RbTree.{Color, Side, left, right, opp, Nodes, nil}
unfoldable pub use x_os_tmp.Base.{one}
pub use x_os_tmp.Base.{one_self, one_eq, ne_of_one, one_ne, one_cases}

pub data Tree : Type 0 where
  leaf : Tree
  bin : Color → Tree → ℕ → Tree → Tree

-- A node x of a colour, its subtree on the side d, and the other one.
abbrev pub join : Side → Color → Tree → ℕ → Tree → Tree
join left c near x far = bin c near x far
join right c near x far = bin c far x near

-- The place is on the side d of the node x, which has this colour and this other subtree.
pub data Frame : Type 0 where
  frame : Side → Color → ℕ → Tree → Frame

abbrev pub plug : List Frame → Tree → Tree
plug [] t = t
plug (frame d c x u ∷ k) t = plug k (join d c t x u)

-- How often z stands in a tree, and in the frames.
abbrev pub occ : ℕ → Tree → ℕ
occ z leaf = 0
occ z (bin c l x r) = one z x + occ z l + occ z r

abbrev pub occ_above : ℕ → List Frame → ℕ
occ_above z [] = 0
occ_above z (frame d c x u ∷ k) = one z x + occ z u + occ_above z k

pub occ-join :
    (z : ℕ) (d : Side) (c : Color) (a : Tree) (x : ℕ) (b : Tree)
    → occ z (join d c a x b) ≡ one z x + occ z a + occ z b
occ-join z left c a x b = refl
occ-join z right c a x b = omega arith

pub occ-plug : (z : ℕ) (k : List Frame) (t : Tree) → occ z (plug k t) ≡ occ z t + occ_above z k
occ-plug z [] t = omega arith
occ-plug z (frame d c x u ∷ k) t =
    omega (arith, occ-plug z k (join d c t x u), occ-join z d c t x u)

-- No node of the tree is met twice, and none of them is the head or `nil`.
abbrev pub Once : ℕ → Tree → List Frame → Type 0
Once head t k = (z : ℕ) → occ z t + occ_above z k + one z head + one z nil ≤ 1

-- The subtree at the pointer `a`, whose root has the parent `p`.
abbrev pub Sub : Nodes → ℕ → ℕ → Tree → Type 0
Sub s p a leaf = a ≡ nil
Sub s p a (bin c l x r) =
    (a ≡ x)
    × (s.color x ≡ c)
    × (s.parent x ≡ p)
    × Sub s x (s.child left x) l
    × Sub s x (s.child right x) r

-- The rest of the tree, around a place with the pointer `a` in the node `p`.
abbrev pub Hole : Nodes → ℕ → List Frame → ℕ → ℕ → Type 0
Hole s head [] p a = (p ≡ head) × (s.child left head ≡ a)
Hole s head (frame d c x u ∷ k) p a =
    (p ≡ x)
    × (s.child d x ≡ a)
    × (s.color x ≡ c)
    × Sub s x (s.child (opp d) x) u
    × Hole s head k (s.parent x) x

pub Sub-join :
    (s : Nodes) (p : ℕ) (d : Side) (c : Color) (n : Tree) (x : ℕ) (f : Tree)
    → s.color x ≡ c
    → s.parent x ≡ p
    → Sub s x (s.child d x) n
    → Sub s x (s.child (opp d) x) f
    → Sub s p x (join d c n x f)
Sub-join s p left c n x f hc hp hn hf = (refl, hc, hp, hn, hf)
Sub-join s p right c n x f hc hp hn hf = (refl, hc, hp, hf, hn)

-- The parts of a subtree, with the side as a variable.
pub record Parts (s : Nodes) (p a : ℕ) (d : Side) (c : Color) (n : Tree) (x : ℕ) (f : Tree)
    : Type 0 where
  pub at : a ≡ x
  pub color : s.color x ≡ c
  pub parent : s.parent x ≡ p
  pub near : Sub s x (s.child d x) n
  pub far : Sub s x (s.child (opp d) x) f

pub join-Parts :
    (s : Nodes) (p a : ℕ) (d : Side) (c : Color) (n : Tree) (x : ℕ) (f : Tree)
    → Sub s p a (join d c n x f)
    → Parts s p a d c n x f
join-Parts s p a left c n x f h = record {
  at = h.0;
  color = h.1;
  parent = h.2;
  near = h.3;
  far = h.4;
}
join-Parts s p a right c n x f h = record {
  at = h.0;
  color = h.1;
  parent = h.2;
  near = h.4;
  far = h.3;
}

-- With a subtree at every place of the frames, the whole tree hangs below the head.
pub Hole-plug :
    (s : Nodes) (head : ℕ) (k : List Frame) (p a : ℕ) (t : Tree)
    → Hole s head k p a
    → Sub s p a t
    → Sub s head (s.child left head) (plug k t)
Hole-plug s head [] p a t h b = rw (h.1) (rw (← h.0) b)
Hole-plug s head (frame d c x u ∷ k) p a t h b =
    Hole-plug s head k (s.parent x) x (join d c t x u) h.4
      (Sub-join s (s.parent x) d c t x u h.2 refl (rw (h.1) (rw (← h.0) b)) h.3)

-- The pointer to a subtree is one of its nodes, or `nil`.
pub Sub-root :
    (s : Nodes) (p a : ℕ) (t : Tree) → Sub s p a t → (z : ℕ) → one z a ≤ occ z t + one z nil
Sub-root s p a leaf h z = rw h (omega arith)
Sub-root s p a (bin c l x r) h z = rw (h.0) (omega arith)

-- The parent of a place is the node of the first frame, or the head.
pub Hole-parent :
    (s : Nodes) (head : ℕ) (k : List Frame) (p a : ℕ)
    → Hole s head k p a
    → (z : ℕ) → one z p ≤ occ_above z k + one z head
Hole-parent s head [] p a h z = rw (h.0) (omega arith)
Hole-parent s head (frame d c x u ∷ k) p a h z = rw (h.0) (omega arith)
