-- ===== src/RbTree/Balance.antt =====
-- What `rb_tree_rebalance` does to the tree that the pointers stand for: the order of the nodes
-- stays, and the colours become those of a red-black tree.
use x_os_tmp.Base.{
  ℕ, zero, suc, ◌≡◌, refl, ◌∙◌, if◌then◌else◌, true, false, List, [], ◌∷◌, ◌++◌, Bool-cases, inl,
  inr,
}
use mathlib.Core.List.{append_assoc}
use x_os_tmp.RbTree.{Color, red, black, is_red, Side, left, right}
use x_os_tmp.RbTree.Shape.{Tree, leaf, bin, join, Frame, frame, plug}

abbrev pub root_color : Tree → Color
root_color leaf = black
root_color (bin c l x r) = c

abbrev pub blacken : Tree → Tree
blacken leaf = leaf
blacken (bin c l x r) = bin black l x r

-- The grandparent g with the uncle v on the side other than e, the parent x with the other child u,
-- and the node: in one line, and with the node between the two.
abbrev pub outer : Side → Tree → ℕ → Tree → ℕ → Tree → Tree
outer e t x u g v = join e black t x (join e red u g v)

abbrev pub inner : Side → Tree → ℕ → Tree → ℕ → Tree → Tree
inner e leaf x u g v = join e black (join e red u x leaf) g v
inner left (bin c l n r) x u g v = join left black (join left red u x l) n (join left red r g v)
inner right (bin c l n r) x u g v = join right black (join right red u x r) n (join right red l g v)

abbrev pub settled : Side → Side → Tree → ℕ → Tree → ℕ → Tree → Tree
settled left left = outer left
settled right right = outer right
settled left right = inner right
settled right left = inner left

-- The tree that the loop comes to from the node at the root of `t`, with the frames above it.
unfoldable pub rebalanced : List Frame → Tree → Tree
rebalanced [] t = blacken t
rebalanced (frame d black x u ∷ k) t = plug (frame d black x u ∷ k) t
rebalanced (frame d red x u ∷ []) t = plug (frame d red x u ∷ []) t
rebalanced (frame d red x u ∷ frame e c g v ∷ k) t =
    let again = rebalanced k (join e red (join d black t x u) g (blacken v)) in
    if is_red (root_color v) then again else plug k (settled d e t x u g v)

abbrev pub inorder : Tree → List ℕ
inorder leaf = []
inorder (bin c l x r) = inorder l ++ (x ∷ inorder r)

inorder-join :
    (d : Side) (c c' : Color) (a a' : Tree) (x : ℕ) (b b' : Tree)
    → inorder a ≡ inorder a'
    → inorder b ≡ inorder b'
    → inorder (join d c a x b) ≡ inorder (join d c' a' x b')
inorder-join left c c' a a' x b b' h k = rw (h, k) refl
inorder-join right c c' a a' x b b' h k = rw (h, k) refl

inorder-plug :
    (k : List Frame) (t t' : Tree)
    → inorder t ≡ inorder t'
    → inorder (plug k t) ≡ inorder (plug k t')
inorder-plug [] t t' h = h
inorder-plug (frame d c x u ∷ k) t t' h =
    inorder-plug k (join d c t x u) (join d c t' x u) (inorder-join d c c t t' x u u h refl)

inorder-blacken : (t : Tree) → inorder (blacken t) ≡ inorder t
inorder-blacken leaf = refl
inorder-blacken (bin c l x r) = refl

inorder-settled :
    (d e : Side) (c c' : Color) (t : Tree) (x : ℕ) (u : Tree) (g : ℕ) (v : Tree)
    → inorder (settled d e t x u g v) ≡ inorder (join e c (join d c' t x u) g v)
inorder-settled left left c c' t x u g v = simp append_assoc
inorder-settled right right c c' t x u g v = simp append_assoc
inorder-settled left right c c' leaf x u g v = refl
inorder-settled left right c c' (bin q l n r) x u g v = simp append_assoc
inorder-settled right left c c' leaf x u g v = refl
inorder-settled right left c c' (bin q l n r) x u g v = simp append_assoc

pub inorder-rebalanced : (k : List Frame) (t : Tree) → inorder (rebalanced k t) ≡ inorder (plug k t)
unfolding rebalanced
inorder-rebalanced [] t = inorder-blacken t
inorder-rebalanced (frame d black x u ∷ k) t = refl
inorder-rebalanced (frame d red x u ∷ []) t = refl
inorder-rebalanced (frame d red x u ∷ frame e c g v ∷ k) t =
    elim (Bool-cases (is_red (root_color v))) [
      | inl r ↦ rw r (
          inorder-rebalanced k (join e red (join d black t x u) g (blacken v))
          ∙ inorder-plug k _ (join e c (join d red t x u) g v) (
              inorder-join e red c (join d black t x u) (join d red t x u) g (blacken v) v
                (inorder-join d black red t t x u u refl refl) (inorder-blacken v)))
      | inr r ↦ rw r (inorder-plug k _ _ (inorder-settled d e c red t x u g v))
    ]

-- A red-black tree: no red node has a red child, and n black nodes stand on every way down.
abbrev pub IsRb : Tree → ℕ → Type 0
IsRb leaf n = n ≡ 0
IsRb (bin red l x r) n = IsRb l n × IsRb r n × (root_color l ≡ black) × (root_color r ≡ black)
IsRb (bin black l x r) zero = ⊥
IsRb (bin black l x r) (suc n) = IsRb l n × IsRb r n

abbrev pub BlackTop : List Frame → Type 0
BlackTop [] = ⊥
BlackTop (frame d c x u ∷ k) = c ≡ black

-- Frames that become a red-black tree with a tree of n black nodes and a black root at the place.
abbrev pub IsRbAbove : List Frame → ℕ → Type 0
IsRbAbove [] n = Unit
IsRbAbove (frame d black x u ∷ k) n = IsRb u n × IsRbAbove k (suc n)
IsRbAbove (frame d red x u ∷ k) n = IsRb u n × (root_color u ≡ black) × BlackTop k × IsRbAbove k n

black-IsRb :
    (d : Side) (a : Tree) (x : ℕ) (b : Tree) (n : ℕ)
    → IsRb a n
    → IsRb b n
    → IsRb (join d black a x b) (suc n)
black-IsRb left a x b n h k = (h, k)
black-IsRb right a x b n h k = (k, h)

red-IsRb :
    (d : Side) (a : Tree) (x : ℕ) (b : Tree) (n : ℕ)
    → IsRb a n
    → IsRb b n
    → root_color a ≡ black
    → root_color b ≡ black
    → IsRb (join d red a x b) n
red-IsRb left a x b n h k p q = (h, k, p, q)
red-IsRb right a x b n h k p q = (k, h, q, p)

root_color-join :
    (d : Side) (c : Color) (a : Tree) (x : ℕ) (b : Tree) → root_color (join d c a x b) ≡ c
root_color-join left c a x b = refl
root_color-join right c a x b = refl

-- A whole red-black tree, with a black root.
abbrev pub Balanced : Tree → Type 0
Balanced t = (n : ℕ) × IsRb t n × (root_color t ≡ black)

pub plug-Balanced :
    (k : List Frame) (n : ℕ) (t : Tree)
    → IsRbAbove k n
    → IsRb t n
    → root_color t ≡ black
    → Balanced (plug k t)
plug-Balanced [] n t a h b = (n, h, b)
plug-Balanced (frame d black x u ∷ k) n t a h b =
    plug-Balanced k (suc n) (join d black t x u) a.1 (black-IsRb d t x u n h a.0)
      (root_color-join d black t x u)
plug-Balanced (frame d red x u ∷ []) n t a h b = absurd a.2
plug-Balanced (frame d red x u ∷ frame e red g v ∷ k) n t a h b = cc
plug-Balanced (frame d red x u ∷ frame e black g v ∷ k) n t a h b =
    plug-Balanced k (suc n) (join e black (join d red t x u) g v) a.3.1
      (black-IsRb e (join d red t x u) g v n (red-IsRb d t x u n h a.0 b a.1) a.3.0)
      (root_color-join e black (join d red t x u) g v)

blacken-IsRb : (t : Tree) (n : ℕ) → IsRb t n → root_color t ≡ red → IsRb (blacken t) (suc n)
blacken-IsRb leaf n h r = cc
blacken-IsRb (bin red l x r) n h e = (h.0, h.1)
blacken-IsRb (bin black l x r) n h e = cc

root_color-blacken : (t : Tree) → root_color (blacken t) ≡ black
root_color-blacken leaf = refl
root_color-blacken (bin c l x r) = refl

settled-IsRb :
    (d e : Side) (t : Tree) (x : ℕ) (u : Tree) (g : ℕ) (v : Tree) (n : ℕ)
    → IsRb t n
    → root_color t ≡ red
    → IsRb u n
    → root_color u ≡ black
    → IsRb v n
    → root_color v ≡ black
    → IsRb (settled d e t x u g v) (suc n) × (root_color (settled d e t x u g v) ≡ black)
settled-IsRb d e leaf x u g v n ht r hu bu hv bv = cc
settled-IsRb d e (bin black l y q) x u g v n ht r hu bu hv bv = cc
settled-IsRb left left (bin red l y q) x u g v n ht r hu bu hv bv = ((ht, (hu, hv, bu, bv)), refl)
settled-IsRb right right (bin red l y q) x u g v n ht r hu bu hv bv = (((hv, hu, bv, bu), ht), refl)
settled-IsRb left right (bin red l y q) x u g v n ht r hu bu hv bv =
    (((hv, ht.0, bv, ht.2), (ht.1, hu, ht.3, bu)), refl)
settled-IsRb right left (bin red l y q) x u g v n ht r hu bu hv bv =
    (((hu, ht.0, bu, ht.2), (ht.1, hv, ht.3, bv)), refl)

red-of : (t : Tree) → is_red (root_color t) ≡ true → root_color t ≡ red
red-of leaf h = cc
red-of (bin red l x r) h = refl
red-of (bin black l x r) h = cc

black-of : (t : Tree) → is_red (root_color t) ≡ false → root_color t ≡ black
black-of leaf h = refl
black-of (bin red l x r) h = cc
black-of (bin black l x r) h = refl

pub rebalanced-Balanced :
    (k : List Frame) (n : ℕ) (t : Tree)
    → IsRbAbove k n
    → IsRb t n
    → root_color t ≡ red
    → Balanced (rebalanced k t)
unfolding rebalanced
rebalanced-Balanced [] n t a h r = (suc n, blacken-IsRb t n h r, root_color-blacken t)
rebalanced-Balanced (frame d black x u ∷ k) n t a h r =
    plug-Balanced k (suc n) (join d black t x u) a.1 (black-IsRb d t x u n h a.0)
      (root_color-join d black t x u)
rebalanced-Balanced (frame d red x u ∷ []) n t a h r = absurd a.2
rebalanced-Balanced (frame d red x u ∷ frame e red g v ∷ k) n t a h r = cc
rebalanced-Balanced (frame d red x u ∷ frame e black g v ∷ k) n t a h r =
    elim (Bool-cases (is_red (root_color v))) [
      | inl w ↦ rw w (
          rebalanced-Balanced k (suc n) (join e red (join d black t x u) g (blacken v)) a.3.1
            (red-IsRb e (join d black t x u) g (blacken v) (suc n) (black-IsRb d t x u n h a.0)
              (blacken-IsRb v n a.3.0 (red-of v w)) (root_color-join d black t x u)
              (root_color-blacken v))
            (root_color-join e red (join d black t x u) g (blacken v)))
      | inr w ↦ rw w (
          let s = settled-IsRb d e t x u g v n h r a.0 a.1 a.3.0 (black-of v w) in
          plug-Balanced k (suc n) (settled d e t x u g v) a.3.1 s.0 s.1)
    ]
