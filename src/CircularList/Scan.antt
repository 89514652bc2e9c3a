-- ===== src/CircularList/Scan.antt =====
-- The two loops over a ring end, and compute membership and length.
use x_os_tmp.Base.{
  ℕ, zero, suc, ◌+◌, ◌<◌, ◌≡◌, refl, ◌∙◌, Bool, true, false, some, List, [], ◌∷◌, ◌==◌, length,
  arith, In, Bool-cases, ==→eq, inl, inr, ◌||◌,
}
use x_os_tmp.CircularList.{
  Ref, head, node, Links, is_inlist_from, circular_list_is_inlist, size_from, circular_list_size,
  circular_list_is_empty,
}
use x_os_tmp.CircularList.Seg.{ref_eq_self, Seg, Ring}

-- The list-level test.
abbrev pub mem : ℕ → List ℕ → Bool
mem p [] = false
mem p (q ∷ qs) = q == p || mem p qs

pub mem-In : (p : ℕ) (qs : List ℕ) → mem p qs ≡ true → In p qs
mem-In p [] h = cc
mem-In p (q ∷ qs) h = elim (Bool-cases (q == p)) [
  | inl e ↦ inl (==→eq q p e)
  | inr e ↦ inr (mem-In p qs (rw e at h))
]

pub In-mem : (p : ℕ) (qs : List ℕ) → In p qs → mem p qs ≡ true
In-mem p [] k = absurd k
In-mem p (q ∷ qs) (inl e) = ground arith
In-mem p (q ∷ qs) (inr k) = ground (arith, In-mem p qs k)

is_inlist_from-Seg :
    (f : ℕ) (l : Links) (a : Ref) (i p : ℕ) (qs : List ℕ)
    → length qs < f
    → Seg l a qs (head i)
    → is_inlist_from f (l.next a) (head i) (node p) l ≡ some (mem p qs)
unfolding is_inlist_from
is_inlist_from-Seg zero l a i p qs h s = absurd (omega arith)
is_inlist_from-Seg (suc f) l a i p [] h s = rw (s.0) (rw (ref_eq_self (head i)))
is_inlist_from-Seg (suc f) l a i p (q ∷ qs) h s = rw (s.0) (
    rw (is_inlist_from-Seg f l (node q) i p qs (omega arith) s.2)
      (elim (Bool-cases (q == p)) [ inl e ↦ rw e | inr e ↦ rw e ]))

size_from-Seg :
    (f : ℕ) (l : Links) (a : Ref) (i n : ℕ) (qs : List ℕ)
    → length qs < f
    → Seg l a qs (head i)
    → size_from f (l.next a) (head i) n l ≡ some (n + length qs)
unfolding size_from
size_from-Seg zero l a i n qs h s = absurd (omega arith)
size_from-Seg (suc f) l a i n [] h s = rw (s.0) (rw (ref_eq_self (head i)) (ground arith))
size_from-Seg (suc f) l a i n (q ∷ qs) h s =
    rw (s.0) (size_from-Seg f l (node q) i (n + 1) qs (omega arith) s.2 ∙ ground arith)

-- On a well-formed list, with fuel above its length, circular_list_is_inlist ends and says whether
-- the node is an element of the list.
pub is_inlist-Ring :
    (f : ℕ) (l : Links) (i p : ℕ) (qs : List ℕ)
    → length qs < f
    → Ring l i qs
    → circular_list_is_inlist f (head i) (node p) l ≡ some (mem p qs)
unfolding circular_list_is_inlist
is_inlist-Ring f l i p qs h r = is_inlist_from-Seg f l (head i) i p qs h r.seg

-- On a well-formed list, with fuel above its length, circular_list_size ends and answers the
-- length of the list.
pub size-Ring :
    (f : ℕ) (l : Links) (i : ℕ) (qs : List ℕ)
    → length qs < f
    → Ring l i qs
    → circular_list_size f (head i) l ≡ some (length qs)
unfolding circular_list_size
size-Ring f l i qs h r = size_from-Seg f l (head i) i 0 qs h r.seg ∙ ground arith

abbrev pub is_empty : List ℕ → Bool
is_empty [] = true
is_empty (q ∷ qs) = false

pub is_empty-Ring :
    (l : Links) (i : ℕ) (qs : List ℕ)
    → Ring l i qs
    → circular_list_is_empty (head i) l ≡ is_empty qs
unfolding circular_list_is_empty
is_empty-Ring l i [] r = rw (r.seg.0) (ref_eq_self (head i))
is_empty-Ring l i (q ∷ qs) r = rw (r.seg.0) refl
