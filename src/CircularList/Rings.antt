-- ===== src/CircularList/Rings.antt =====
-- All the lists of one store together: a table of rings that share no node.
-- `circular_list_insert` and `circular_list_remove` edit one row of the table.
use x_os_tmp.Base.{
  All, subst, In-without, ℕ, ◌≡◌, refl, sym, ◌∙◌, ◌≢◌, List, [], ◌∷◌, ◌++◌, All-append_left,
  All-append_right, ◌<◌, Distinct-middle, Distinct-remove, Distinct-snoc, Fresh, In,
  Fresh-of_not-In, Fresh-not-In, inr, inl, ◌==◌, if◌then◌else◌, In-middle, In-insert, In-append,
  In-append_left, In-append_right, eq→==, ne→==, Bool-cases, ==→eq, ==→ne,
}
use x_os_tmp.CircularList.{head, node, Links, circular_list_insert, circular_list_remove}
use x_os_tmp.CircularList.Seg.{head-ne-node, node-ne-head, head-ne, Ring}
use x_os_tmp.CircularList.Edit.{
  Off, Off-head, Off-node, last, first, last-ne, first-ne, Seg-last, Seg-next_last, Seg-first,
  Seg-insert_front, Seg-insert_back, Seg-insert_frame,
}
use x_os_tmp.CircularList.Cut.{
  next-remove_ne, Seg-remove, Seg-remove_frame, Seg-pre_middle, Seg-next_middle,
}

-- A ring after an insertion at its front, at its back, and after a removal.
pub Ring-insert_front :
    (l : Links) (i p : ℕ) (ps : List ℕ)
    → Fresh p ps
    → Ring l i ps
    → Ring (circular_list_insert (head i) (node p) l) i (p ∷ ps)
Ring-insert_front l i p ps f r = record {
  seg =
      Seg-insert_front l p (head i) (head-ne-node i p) (head i) ps (head-ne-node i p)
        (Off-head i ps) (Off-head i ps) f r.distinct r.seg;
  distinct = (f, r.distinct);
}

pub pre-ne-node :
    (l : Links) (i p : ℕ) (ps : List ℕ) → Fresh p ps → Ring l i ps → l.pre (head i) ≢ node p
pre-ne-node l i p ps f r =
    rw (Seg-last l (head i) ps (head i) r.seg)
      (λ e. last-ne (node p) (head i) ps (node-ne-head i p) (Off-node p ps f) (sym e))

pub Ring-insert_back :
    (l : Links) (i p : ℕ) (ps : List ℕ)
    → Fresh p ps
    → Ring l i ps
    → Ring (circular_list_insert (l.pre (head i)) (node p) l) i (ps ++ (p ∷ []))
Ring-insert_back l i p ps f r = record {
  seg =
      Seg-insert_back l p (head i) (head-ne-node i p) (head i) ps (l.pre (head i))
        (pre-ne-node l i p ps f r) (sym (Seg-last l (head i) ps (head i) r.seg))
        (rw (Seg-last l (head i) ps (head i) r.seg) (Seg-next_last l (head i) ps (head i) r.seg))
        (head-ne-node i p) (Off-head i ps) (Off-head i ps) f r.distinct r.seg;
  distinct = Distinct-snoc ps p r.distinct f;
}

linked :
    (l : Links) (i : ℕ) (xs : List ℕ) (p : ℕ) (ys : List ℕ)
    → Ring l i (xs ++ (p ∷ ys))
    → node p ≢ l.next (node p)
linked l i xs p ys r = rw (Seg-next_middle l (head i) xs p ys (head i) r.seg) (
    first-ne (node p) ys (head i) (node-ne-head i p)
      (Off-node p ys (All-append_right (λ q. q ≢ p) xs ys (Distinct-middle xs p ys r.distinct))))

pub Ring-remove :
    (l : Links) (i : ℕ) (xs : List ℕ) (p : ℕ) (ys : List ℕ)
    → Ring l i (xs ++ (p ∷ ys))
    → Ring (circular_list_remove (node p) l) i (xs ++ ys)
Ring-remove l i xs p ys r = record {
  seg =
      Seg-remove l p (linked l i xs p ys r) (head i) (head i) xs ys (Off-head i (xs ++ ys))
        (Off-head i (xs ++ ys)) (Distinct-remove xs p ys r.distinct)
        (Seg-pre_middle l (head i) xs p ys (head i) r.seg)
        (Seg-next_middle l (head i) xs p ys (head i) r.seg) r.seg;
  distinct = Distinct-remove xs p ys r.distinct;
}

-- The table with another row `i`.
abbrev pub with_row : (ℕ → List ℕ) → ℕ → List ℕ → ℕ → List ℕ
with_row t i ps j = if j == i then ps else t j

-- The first `n` lists of the store hold the rows of `t`, and no node stands in two of them.
pub record Rings (l : Links) (n : ℕ) (t : ℕ → List ℕ) : Type 0 where
  pub ring : (i : ℕ) → i < n → Ring l i (t i)
  pub apart : (i j p : ℕ) → In p (t i) → In p (t j) → i ≡ j

pub with_row_self : (t : ℕ → List ℕ) (i : ℕ) (ps : List ℕ) → with_row t i ps i ≡ ps
with_row_self t i ps = rw (eq→== i i refl)

pub with_row_ne : (t : ℕ → List ℕ) (i : ℕ) (ps : List ℕ) (j : ℕ) → j ≢ i → with_row t i ps j ≡ t j
with_row_ne t i ps j h = rw (ne→== j i h)

pub All-of_In {κ} : (P : ℕ → Type κ) (zs : List ℕ) → ((z : ℕ) → In z zs → P z) → All P zs
All-of_In P [] h = tt
All-of_In P (z ∷ zs) h = (h z (inl refl), All-of_In P zs (λ y k. h y (inr k)))

-- One row changes, its ring with it, and every other ring is left alone.
Rings-row :
    (l l' : Links) (n : ℕ) (t : ℕ → List ℕ) (i : ℕ) (ps : List ℕ)
    → Rings l n t
    → Ring l' i ps
    → ((j : ℕ) → j ≢ i → Ring l j (t j) → Ring l' j (t j))
    → ((k j : ℕ) → In k ps → j ≢ i → In k (t j) → ⊥)
    → Rings l' n (with_row t i ps)
Rings-row l l' n t i ps rs mine others fresh = record { ring = ring'; apart = apart' }
  where
    ring' : (j : ℕ) → j < n → Ring l' j (with_row t i ps j)
    ring' j h = elim (Bool-cases (j == i)) [
      | inl e ↦ rw e (rw (==→eq j i e) mine)
      | inr e ↦ rw e (others j (==→ne j i e) (rs.ring j h))
    ]

    apart' : (j k p : ℕ) → In p (with_row t i ps j) → In p (with_row t i ps k) → j ≡ k
    apart' j k p u v = elim (Bool-cases (j == i)) [
      | inl e ↦ elim (Bool-cases (k == i)) [
        | inl e' ↦ ==→eq j i e ∙ sym (==→eq k i e')
        | inr e' ↦ absurd (fresh p k (rw e at u) (==→ne k i e') (rw e' at v))
      ]
      | inr e ↦ elim (Bool-cases (k == i)) [
        | inl e' ↦ absurd (fresh p j (rw e' at v) (==→ne j i e) (rw e at u))
        | inr e' ↦ rs.apart j k p (rw e at u) (rw e' at v)
      ]
    ]

-- No node of row `j` is the end, or the start, of a part of row `i`.
Off-last : (i : ℕ) (xs zs : List ℕ) → ((z : ℕ) → In z zs → In z xs → ⊥) → Off (last (head i) xs) zs
Off-last i xs zs h = All-of_In _ zs (λ z k e.
    last-ne (node z) (head i) xs (node-ne-head i z) (Off-node z xs (Fresh-of_not-In z xs (h z k)))
      (sym e))

Off-first :
    (i : ℕ) (ys zs : List ℕ) → ((z : ℕ) → In z zs → In z ys → ⊥) → Off (first ys (head i)) zs
Off-first i ys zs h = All-of_In _ zs (λ z k e.
    first-ne (node z) ys (head i) (node-ne-head i z) (Off-node z ys (Fresh-of_not-In z ys (h z k)))
      (sym e))

module _ (l : Links) (n : ℕ) (t : ℕ → List ℕ) (i : ℕ) (h : i < n) (rs : Rings l n t) where
  Fresh-row : (p : ℕ) → ((j : ℕ) → In p (t j) → ⊥) → Fresh p (t i)
  Fresh-row p f = Fresh-of_not-In p (t i) (f i)

  disjoint : (j : ℕ) → j ≢ i → (z : ℕ) → In z (t j) → In z (t i) → ⊥
  disjoint j k z u v = k (rs.apart j i z u v)

  pub Rings-insert_back :
      (p : ℕ)
      → ((j : ℕ) → In p (t j) → ⊥)
      → Rings (circular_list_insert (l.pre (head i)) (node p) l) n (with_row t i (t i ++ (p ∷ [])))
  Rings-insert_back p f =
      Rings-row l _ n t i (t i ++ (p ∷ [])) rs (Ring-insert_back l i p (t i) (Fresh-row p f) r)
        (λ j k q. record {
          seg =
              Seg-insert_frame l (l.pre (head i)) (node p)
                (pre-ne-node l i p (t i) (Fresh-row p f) r) (head j) (t j) (head j)
                (
                  rw lp (last-ne (head j) (head i) (t i) (head-ne j i k) (Off-head j (t i))),
                  head-ne-node j p,
                )
                (rw lp (Off-last i (t i) (t j) (disjoint j k)))
                (Off-node p (t j) (Fresh-of_not-In p (t j) (f j))) (rw ln (Off-head i (t j)))
                (rw ln (head-ne j i k), head-ne-node j p) q.seg;
          distinct = q.distinct;
        })
        (λ z j u k v. elim (In-append z (t i) (p ∷ []) u) [
          | inl a ↦ disjoint j k z v a
          | inr b ↦ elim b [ inl e ↦ f j (rw e v) | inr w ↦ w ]
        ])
    where
      r : Ring l i (t i)
      r = rs.ring i h

      lp : l.pre (head i) ≡ last (head i) (t i)
      lp = Seg-last l (head i) (t i) (head i) r.seg

      ln : l.next (l.pre (head i)) ≡ head i
      ln = rw lp (Seg-next_last l (head i) (t i) (head i) r.seg)

  pub Rings-insert_front :
      (p : ℕ)
      → ((j : ℕ) → In p (t j) → ⊥)
      → Rings (circular_list_insert (head i) (node p) l) n (with_row t i (p ∷ t i))
  Rings-insert_front p f =
      Rings-row l _ n t i (p ∷ t i) rs (Ring-insert_front l i p (t i) (Fresh-row p f) r)
        (λ j k q. record {
          seg =
              Seg-insert_frame l (head i) (node p) (head-ne-node i p) (head j) (t j) (head j)
                (head-ne j i k, head-ne-node j p) (Off-head i (t j))
                (Off-node p (t j) (Fresh-of_not-In p (t j) (f j)))
                (rw ln (Off-first i (t i) (t j) (disjoint j k)))
                (
                  rw ln (first-ne (head j) (t i) (head i) (head-ne j i k) (Off-head j (t i))),
                  head-ne-node j p,
                )
                q.seg;
          distinct = q.distinct;
        })
        (λ z j u k v. elim u [ inl e ↦ f j (rw e v) | inr a ↦ disjoint j k z v a ])
    where
      r : Ring l i (t i)
      r = rs.ring i h

      ln : l.next (head i) ≡ first (t i) (head i)
      ln = Seg-first l (head i) (t i) (head i) r.seg

  pub Rings-remove :
      (xs : List ℕ) (p : ℕ) (ys : List ℕ)
      → t i ≡ xs ++ (p ∷ ys)
      → Rings (circular_list_remove (node p) l) n (with_row t i (xs ++ ys))
  Rings-remove xs p ys e =
      Rings-row l _ n t i (xs ++ ys) rs (Ring-remove l i xs p ys r)
        (λ j k q. record {
          seg =
              Seg-remove_frame l (node p) (linked l i xs p ys r) (head j) (t j) (head j)
                (rw lp (last-ne (head j) (head i) xs (head-ne j i k) (Off-head j xs)))
                (rw lp (Off-last i xs (t j) (λ z u v. off j k z u (In-append_left z xs ys v))))
                (rw ln (Off-first i ys (t j) (λ z u v. off j k z u (In-append_right z xs ys v))))
                (rw ln (first-ne (head j) ys (head i) (head-ne j i k) (Off-head j ys))) q.seg;
          distinct = q.distinct;
        })
        (λ z j u k v. off j k z v u)
    where
      r : Ring l i (xs ++ (p ∷ ys))
      r = rw e at (rs.ring i h)

      off : (j : ℕ) → j ≢ i → (z : ℕ) → In z (t j) → In z (xs ++ ys) → ⊥
      off j k z u v = disjoint j k z u (rw e (In-insert z xs p ys v))

      lp : l.pre (node p) ≡ last (head i) xs
      lp = Seg-pre_middle l (head i) xs p ys (head i) r.seg

      ln : l.next (node p) ≡ first ys (head i)
      ln = Seg-next_middle l (head i) xs p ys (head i) r.seg

-- A loop that stands on a node may remove it and go on: the link of the node still leads ahead.
pub next-remove_self :
    (l : Links) (i : ℕ) (xs : List ℕ) (p : ℕ) (ys : List ℕ)
    → Ring l i (xs ++ (p ∷ ys))
    → (circular_list_remove (node p) l).next (node p) ≡ first ys (head i)
next-remove_self l i xs p ys r =
    next-remove_ne l (node p) (linked l i xs p ys r) (node p) (
      rw (Seg-pre_middle l (head i) xs p ys (head i) r.seg) (
        last-ne (node p) (head i) xs (node-ne-head i p) (
          Off-node p xs (All-append_left (λ q. q ≢ p) xs ys (Distinct-middle xs p ys r.distinct)))))
    ∙ Seg-next_middle l (head i) xs p ys (head i) r.seg

pub next-Ring :
    (l : Links) (i : ℕ) (xs : List ℕ) (p : ℕ) (ys : List ℕ)
    → Ring l i (xs ++ (p ∷ ys))
    → l.next (node p) ≡ first ys (head i)
next-Ring l i xs p ys r = Seg-next_middle l (head i) xs p ys (head i) r.seg

-- Only the rows count.
pub Rings-ext :
    (l : Links) (n : ℕ) (t u : ℕ → List ℕ) → ((i : ℕ) → t i ≡ u i) → Rings l n t → Rings l n u
Rings-ext l n t u h rs = record {
  ring = λ i b. subst (Ring l i) (h i) (rs.ring i b);
  apart = λ i j p u v. rs.apart i j p (rw (h i) u) (rw (h j) v);
}

pub with_row-with_row :
    (t : ℕ → List ℕ) (i : ℕ) (ps qs : List ℕ) (j : ℕ)
    → with_row (with_row t i ps) i qs j ≡ with_row t i qs j
with_row-with_row t i ps qs j = elim (Bool-cases (j == i)) [ inl e ↦ rw e refl | inr e ↦ rw e refl ]

pub with_row_same :
    (t : ℕ → List ℕ) (i : ℕ) (ps : List ℕ) → t i ≡ ps → (j : ℕ) → t j ≡ with_row t i ps j
with_row_same t i ps h j = elim (Bool-cases (j == i)) [
  | inl e ↦ rw e (rw (==→eq j i e) h)
  | inr e ↦ rw e refl
]

-- Which nodes a table holds after a removal.
module _ (l : Links) (n : ℕ) (t : ℕ → List ℕ) (i : ℕ) (xs : List ℕ) (p : ℕ) (ys : List ℕ)
    (h : i < n) (e : t i ≡ xs ++ (p ∷ ys)) (rs : Rings l n t) where
  pub removed-out : (j : ℕ) → In p (with_row t i (xs ++ ys) j) → ⊥
  removed-out j m = elim (Bool-cases (j == i)) [
    | inl b ↦ Fresh-not-In p (xs ++ ys) (Distinct-middle xs p ys ring.distinct) (rw b at m)
    | inr b ↦ ==→ne j i b (rs.apart j i p (rw b at m) (rw e (In-middle xs p ys)))
  ]
    where
      ring : Ring l i (xs ++ (p ∷ ys))
      ring = rw e at (rs.ring i h)

  pub removed-old : (j r : ℕ) → In r (with_row t i (xs ++ ys) j) → In r (t j)
  removed-old j r m = elim (Bool-cases (j == i)) [
    | inl b ↦ rw (==→eq j i b) (rw e (In-insert r xs p ys (rw b at m)))
    | inr b ↦ rw b at m
  ]

  pub removed-keeps : (j r : ℕ) → r ≢ p → In r (t j) → In r (with_row t i (xs ++ ys) j)
  removed-keeps j r ne m = elim (Bool-cases (j == i)) [
    | inl b ↦ rw b (In-without r xs p ys ne (rw (==→eq j i b, e) at m))
    | inr b ↦ rw b m
  ]
