-- ===== src/CircularList/Edit.antt =====
-- What `circular_list_insert` and `circular_list_remove` do to segments and rings.
use x_os_tmp.Base.{ℕ, ◌≡◌, sym, ◌∙◌, ◌≢◌, List, [], ◌∷◌, ◌++◌, All, All-imp, Fresh, Distinct}
use x_os_tmp.CircularList.{Ref, head, node, Links, update, circular_list_insert}
use x_os_tmp.CircularList.Seg.{update_self, update_ne, head-ne-node, node-ne, Seg, Seg-frame}

module _ (l : Links) (position n : Ref) (apart : position ≢ n) where
  pub next-insert_position : (circular_list_insert position n l).next position ≡ n
  unfolding circular_list_insert
  next-insert_position = update_self _ position n

  pub next-insert_node : (circular_list_insert position n l).next n ≡ l.next position
  unfolding circular_list_insert
  next-insert_node =
      update_ne (update l.next n (l.next position)) position n n (λ e. apart (sym e))
      ∙ update_self l.next n (l.next position)

  pub next-insert_ne :
      (x : Ref) → x ≢ position → x ≢ n → (circular_list_insert position n l).next x ≡ l.next x
  unfolding circular_list_insert
  next-insert_ne x h k =
      update_ne (update l.next n (l.next position)) position n x h
      ∙ update_ne l.next n (l.next position) x k

  pub pre-insert_after : (circular_list_insert position n l).pre (l.next position) ≡ n
  unfolding circular_list_insert
  pre-insert_after = rw next-insert_node (update_self _ (l.next position) n)

  pub pre-insert_node : n ≢ l.next position → (circular_list_insert position n l).pre n ≡ position
  unfolding circular_list_insert
  pre-insert_node h =
      rw next-insert_node
        (update_ne (update l.pre n position) (l.next position) n n h ∙ update_self l.pre n position)

  pub pre-insert_ne :
      (x : Ref) → x ≢ l.next position → x ≢ n → (circular_list_insert position n l).pre x ≡ l.pre x
  unfolding circular_list_insert
  pre-insert_ne x h k =
      rw next-insert_node (
        update_ne (update l.pre n position) (l.next position) n x h
        ∙ update_ne l.pre n position x k)

-- A reference that is none of the nodes of a list.
abbrev pub Off : Ref → List ℕ → Type 0
Off a = All (λ q. a ≢ node q)

pub Off-head : (i : ℕ) (ps : List ℕ) → Off (head i) ps
Off-head i [] = tt
Off-head i (p ∷ ps) = (head-ne-node i p, Off-head i ps)

pub Off-node : (p : ℕ) (ps : List ℕ) → Fresh p ps → Off (node p) ps
Off-node p ps = All-imp ps (λ q h. node-ne p q (λ e. h (sym e)))

-- The last reference of a segment, and the first one after its start.
abbrev pub last : Ref → List ℕ → Ref
last a [] = a
last a (p ∷ ps) = last (node p) ps

abbrev pub first : List ℕ → Ref → Ref
first [] b = b
first (p ∷ ps) b = node p

pub Seg-last : (l : Links) (a : Ref) (ps : List ℕ) (b : Ref) → Seg l a ps b → l.pre b ≡ last a ps
Seg-last l a [] b s = s.1
Seg-last l a (p ∷ ps) b s = Seg-last l (node p) ps b s.2

pub Seg-first : (l : Links) (a : Ref) (ps : List ℕ) (b : Ref) → Seg l a ps b → l.next a ≡ first ps b
Seg-first l a [] b s = s.0
Seg-first l a (p ∷ ps) b s = s.0

pub Seg-next_last :
    (l : Links) (a : Ref) (ps : List ℕ) (b : Ref) → Seg l a ps b → l.next (last a ps) ≡ b
Seg-next_last l a [] b s = s.0
Seg-next_last l a (p ∷ ps) b s = Seg-next_last l (node p) ps b s.2

pub last-ne : (x a : Ref) (ps : List ℕ) → x ≢ a → Off x ps → x ≢ last a ps
last-ne x a [] h o = h
last-ne x a (p ∷ ps) h o = last-ne x (node p) ps o.0 o.1

pub first-ne : (x : Ref) (ps : List ℕ) (b : Ref) → x ≢ b → Off x ps → x ≢ first ps b
first-ne x [] b h o = h
first-ne x (p ∷ ps) b h o = o.0

-- Nodes that an edit at `u` and `v` leaves as they are.
abbrev pub Clear : Ref → Ref → List ℕ → Type 0
Clear u v = All (λ q. (node q ≢ u) × (node q ≢ v))

pub Clear-of_Off : (u v : Ref) (ps : List ℕ) → Off u ps → Off v ps → Clear u v ps
Clear-of_Off u v [] h k = tt
Clear-of_Off u v (p ∷ ps) h k = ((λ e. h.0 (sym e), λ e. k.0 (sym e)), Clear-of_Off u v ps h.1 k.1)

module _ (l : Links) (position n : Ref) (apart : position ≢ n) where
  -- A segment away from the place of the insertion stays.
  pub Seg-insert_frame :
      (a : Ref) (ps : List ℕ) (b : Ref)
      → (a ≢ position) × (a ≢ n)
      → Off position ps
      → Off n ps
      → Off (l.next position) ps
      → (b ≢ l.next position) × (b ≢ n)
      → Seg l a ps b
      → Seg (circular_list_insert position n l) a ps b
  Seg-insert_frame a ps b ha hp hn hx hb s =
      Seg-frame l (circular_list_insert position n l) a ps b
        (next-insert_ne l position n apart a ha.0 ha.1)
        (All-imp ps (λ q h. next-insert_ne l position n apart (node q) h.0 h.1)
          (Clear-of_Off position n ps hp hn))
        (All-imp ps (λ q h. pre-insert_ne l position n apart (node q) h.0 h.1)
          (Clear-of_Off (l.next position) n ps hx hn))
        (pre-insert_ne l position n apart b hb.0 hb.1) s

module _ (l : Links) (p : ℕ) (b : Ref) (b-ne : b ≢ node p) where
  -- Insertion right after the start of a segment.
  pub Seg-insert_front :
      (a : Ref) (ps : List ℕ)
      → a ≢ node p
      → Off a ps
      → Off b ps
      → Fresh p ps
      → Distinct ps
      → Seg l a ps b
      → Seg (circular_list_insert a (node p) l) a (p ∷ ps) b
  Seg-insert_front a [] ha oa ob f d s = (
    next-insert_position l a (node p) ha,
    pre-insert_node l a (node p) ha (rw (s.0) (λ e. b-ne (sym e))),
    (next-insert_node l a (node p) ha ∙ s.0, rw (← s.0) (pre-insert_after l a (node p) ha)),
  )
  Seg-insert_front a (q ∷ qs) ha oa ob f d s = (
    next-insert_position l a (node p) ha,
    pre-insert_node l a (node p) ha (rw (s.0) (node-ne p q (λ e. f.0 (sym e)))),
    (
      next-insert_node l a (node p) ha ∙ s.0,
      rw (← s.0) (pre-insert_after l a (node p) ha),
      Seg-insert_frame l a (node p) ha (node q) qs b (λ e. oa.0 (sym e), node-ne q p f.0) oa.1
          (Off-node p qs f.1) (rw (s.0) (Off-node q qs d.0)) (rw (s.0) ob.0, b-ne) s.2,
    ),
  )

  -- Insertion right before its end.
  pub Seg-insert_back :
      (a : Ref) (ps : List ℕ)
      → (position : Ref) → position ≢ node p
      → last a ps ≡ position
      → l.next position ≡ b
      → a ≢ node p
      → Off a ps
      → Off b ps
      → Fresh p ps
      → Distinct ps
      → Seg l a ps b
      → Seg (circular_list_insert position (node p) l) a (ps ++ (p ∷ [])) b
  Seg-insert_back a [] position hp e hb ha oa ob f d s = (
    rw e (next-insert_position l position (node p) hp),
    pre-insert_node l position (node p) hp (rw hb (λ k. b-ne (sym k))) ∙ sym e,
    (
      next-insert_node l position (node p) hp ∙ hb,
      rw (← hb) (pre-insert_after l position (node p) hp),
    ),
  )
  Seg-insert_back a (q ∷ qs) position hp e hb ha oa ob f d s = (
    next-insert_ne l position (node p) hp a (rw (← e) (last-ne a (node q) qs oa.0 oa.1)) ha ∙ s.0,
    pre-insert_ne l position (node p) hp (node q) (rw hb (λ k. ob.0 (sym k))) (node-ne q p f.0)
        ∙ s.1,
    Seg-insert_back (node q) qs position hp e hb (node-ne q p f.0) (Off-node q qs d.0) ob.1 f.1 d.1
        s.2,
  )
