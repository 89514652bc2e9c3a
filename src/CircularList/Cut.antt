-- ===== src/CircularList/Cut.antt =====
-- What `circular_list_remove` does to segments.
use x_os_tmp.Base.{
  ℕ, ◌≡◌, sym, ◌∙◌, ◌≢◌, List, [], ◌∷◌, ◌++◌, All-append_left, All-append_right, All-imp, Distinct,
}
use x_os_tmp.CircularList.{Ref, node, Links, circular_list_remove}
use x_os_tmp.CircularList.Seg.{
  update_self, update_ne, Seg, Seg-frame, Seg-append_left, Seg-append_right,
}
use x_os_tmp.CircularList.Edit.{
  Off, Off-node, last, first, Seg-last, Seg-first, last-ne, first-ne, Clear-of_Off,
}

module _ (l : Links) (n : Ref) (linked : n ≢ l.next n) where
  pub next-remove_before : (circular_list_remove n l).next (l.pre n) ≡ l.next n
  unfolding circular_list_remove
  next-remove_before =
      rw (update_ne l.pre (l.next n) (l.pre n) n linked) (update_self l.next (l.pre n) (l.next n))

  pub next-remove_ne : (x : Ref) → x ≢ l.pre n → (circular_list_remove n l).next x ≡ l.next x
  unfolding circular_list_remove
  next-remove_ne x h =
      rw (update_ne l.pre (l.next n) (l.pre n) n linked) (update_ne l.next (l.pre n) (l.next n) x h)

  pub pre-remove_after : (circular_list_remove n l).pre (l.next n) ≡ l.pre n
  unfolding circular_list_remove
  pre-remove_after = update_self l.pre (l.next n) (l.pre n)

  pub pre-remove_ne : (x : Ref) → x ≢ l.next n → (circular_list_remove n l).pre x ≡ l.pre x
  unfolding circular_list_remove
  pre-remove_ne x h = update_ne l.pre (l.next n) (l.pre n) x h

  -- A segment away from the neighbours of the removed node stays.
  pub Seg-remove_frame :
      (a : Ref) (ps : List ℕ) (b : Ref)
      → a ≢ l.pre n
      → Off (l.pre n) ps
      → Off (l.next n) ps
      → b ≢ l.next n
      → Seg l a ps b
      → Seg (circular_list_remove n l) a ps b
  Seg-remove_frame a ps b ha hp hx hb s =
      Seg-frame l (circular_list_remove n l) a ps b (next-remove_ne a ha)
        (All-imp ps (λ q h. next-remove_ne (node q) h.0)
          (Clear-of_Off (l.pre n) (l.next n) ps hp hx))
        (All-imp ps (λ q h. pre-remove_ne (node q) h.1)
          (Clear-of_Off (l.pre n) (l.next n) ps hp hx))
        (pre-remove_ne b hb) s

module _ (l : Links) (p : ℕ) (linked : node p ≢ l.next (node p)) (b : Ref) where
  Seg-remove_first :
      (a : Ref) (ys : List ℕ)
      → Off a ys
      → Off b ys
      → Distinct ys
      → l.pre (node p) ≡ a
      → Seg l (node p) ys b
      → Seg (circular_list_remove (node p) l) a ys b
  Seg-remove_first a [] oa ob d ha s = (
    rw (← ha) (next-remove_before l (node p) linked ∙ s.0),
    rw (← s.0) (pre-remove_after l (node p) linked ∙ ha),
  )
  Seg-remove_first a (y ∷ ys) oa ob d ha s = (
    rw (← ha) (next-remove_before l (node p) linked ∙ s.0),
    rw (← s.0) (pre-remove_after l (node p) linked ∙ ha),
    Seg-remove_frame l (node p) linked (node y) ys b (rw ha (λ e. oa.0 (sym e))) (rw ha oa.1)
        (rw (s.0) (Off-node y ys d.0)) (rw (s.0) ob.0) s.2,
  )

  -- The node leaves the segment, whatever its place.
  pub Seg-remove :
      (a : Ref) (xs ys : List ℕ)
      → Off a (xs ++ ys)
      → Off b (xs ++ ys)
      → Distinct (xs ++ ys)
      → l.pre (node p) ≡ last a xs
      → l.next (node p) ≡ first ys b
      → Seg l a (xs ++ (p ∷ ys)) b
      → Seg (circular_list_remove (node p) l) a (xs ++ ys) b
  Seg-remove a [] ys oa ob d hl hf s = Seg-remove_first a ys oa ob d s.1 s.2
  Seg-remove a (x ∷ xs) ys oa ob d hl hf s = (
    next-remove_ne l (node p) linked a
          (rw hl (last-ne a (node x) xs oa.0 (All-append_left (λ q. a ≢ node q) xs ys oa.1)))
        ∙ s.0,
    pre-remove_ne l (node p) linked (node x) (
          rw hf (
            first-ne (node x) ys b (λ e. ob.0 (sym e))
              (Off-node x ys (All-append_right (λ q. q ≢ x) xs ys d.0))))
        ∙ s.1,
    Seg-remove (node x) xs ys (Off-node x (xs ++ ys) d.0) ob.1 d.1 hl hf s.2,
  )

-- The neighbours of a node in the middle of a segment.
pub Seg-pre_middle :
    (l : Links) (a : Ref) (xs : List ℕ) (p : ℕ) (ys : List ℕ) (b : Ref)
    → Seg l a (xs ++ (p ∷ ys)) b
    → l.pre (node p) ≡ last a xs
Seg-pre_middle l a xs p ys b s = Seg-last l a xs (node p) (Seg-append_left l a xs p ys b s)

pub Seg-next_middle :
    (l : Links) (a : Ref) (xs : List ℕ) (p : ℕ) (ys : List ℕ) (b : Ref)
    → Seg l a (xs ++ (p ∷ ys)) b
    → l.next (node p) ≡ first ys b
Seg-next_middle l a xs p ys b s = Seg-first l (node p) ys b (Seg-append_right l a xs p ys b s)
