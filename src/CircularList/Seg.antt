-- ===== src/CircularList/Seg.antt =====
-- List segments in a store of links: what a ring is, and that it depends on its own nodes alone.
use x_os_tmp.Base.{
  ℕ, ◌≡◌, refl, ap, ◌≢◌, true, false, List, [], ◌∷◌, ◌++◌, All, Distinct, eq→==, ne→==,
}
use x_os_tmp.CircularList.{Ref, head, node, ref_eq, Links, update}

pub ref_eq_self : (a : Ref) → ref_eq a a ≡ true
ref_eq_self (head i) = eq→== i i refl
ref_eq_self (node p) = eq→== p p refl

pub ref_eq_ne : (a b : Ref) → a ≢ b → ref_eq a b ≡ false
ref_eq_ne (head i) (head j) h = ne→== i j (λ e. h (ap head e))
ref_eq_ne (head i) (node q) h = refl
ref_eq_ne (node p) (head j) h = refl
ref_eq_ne (node p) (node q) h = ne→== p q (λ e. h (ap node e))

pub update_self : (f : Ref → Ref) (a v : Ref) → update f a v a ≡ v
unfolding update
update_self f a v = rw (ref_eq_self a)

pub update_ne : (f : Ref → Ref) (a v x : Ref) → x ≢ a → update f a v x ≡ f x
unfolding update
update_ne f a v x h = rw (ref_eq_ne x a h)

pub head-ne-node : (i p : ℕ) → head i ≢ node p
head-ne-node i p h = cc

pub node-ne-head : (i p : ℕ) → node p ≢ head i
node-ne-head i p h = cc

pub node-ne : (p q : ℕ) → p ≢ q → node p ≢ node q
node-ne p q h e = h (cc)

pub head-ne : (i j : ℕ) → i ≢ j → head i ≢ head j
head-ne i j h e = h (cc)

-- From `a` through the nodes of `ps` to `b`, each link with its way back.
abbrev pub Seg : Links → Ref → List ℕ → Ref → Type 0
Seg l a [] b = (l.next a ≡ b) × (l.pre b ≡ a)
Seg l a (p ∷ ps) b = (l.next a ≡ node p) × (l.pre (node p) ≡ a) × Seg l (node p) ps b

-- The i-th list of the store holds `ps`, in this order, each once.
pub record Ring (l : Links) (i : ℕ) (ps : List ℕ) : Type 0 where
  pub seg : Seg l (head i) ps (head i)
  pub distinct : Distinct ps

abbrev pub Same : (Ref → Ref) → (Ref → Ref) → List ℕ → Type 0
Same f g = All (λ q. f (node q) ≡ g (node q))

pub Seg-frame :
    (l l' : Links) (a : Ref) (ps : List ℕ) (b : Ref)
    → l'.next a ≡ l.next a
    → Same l'.next l.next ps
    → Same l'.pre l.pre ps
    → l'.pre b ≡ l.pre b
    → Seg l a ps b
    → Seg l' a ps b
Seg-frame l l' a [] b ha hn hp hb s = (rw ha s.0, rw hb s.1)
Seg-frame l l' a (p ∷ ps) b ha hn hp hb s =
    (rw ha s.0, rw (hp.0) s.1, Seg-frame l l' (node p) ps b (hn.0) (hn.1) (hp.1) hb s.2)

-- A segment falls into two at each of its nodes.
pub Seg-append :
    (l : Links) (a : Ref) (ps : List ℕ) (p : ℕ) (qs : List ℕ) (b : Ref)
    → Seg l a ps (node p)
    → Seg l (node p) qs b
    → Seg l a (ps ++ (p ∷ qs)) b
Seg-append l a [] p qs b s t = (s.0, s.1, t)
Seg-append l a (q ∷ ps) p qs b s t = (s.0, s.1, Seg-append l (node q) ps p qs b s.2 t)

pub Seg-append_left :
    (l : Links) (a : Ref) (ps : List ℕ) (p : ℕ) (qs : List ℕ) (b : Ref)
    → Seg l a (ps ++ (p ∷ qs)) b
    → Seg l a ps (node p)
Seg-append_left l a [] p qs b s = (s.0, s.1)
Seg-append_left l a (q ∷ ps) p qs b s = (s.0, s.1, Seg-append_left l (node q) ps p qs b s.2)

pub Seg-append_right :
    (l : Links) (a : Ref) (ps : List ℕ) (p : ℕ) (qs : List ℕ) (b : Ref)
    → Seg l a (ps ++ (p ∷ qs)) b
    → Seg l (node p) qs b
Seg-append_right l a [] p qs b s = s.2
Seg-append_right l a (q ∷ ps) p qs b s = Seg-append_right l (node q) ps p qs b s.2
