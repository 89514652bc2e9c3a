-- ===== src/Slab/Slots.antt =====
-- The free slots of one size: `tslab_malloc` takes the first one, and what `tslab_free` leaves
-- uncounted stops the kernel later.
use x_os_tmp.Base.{
  ℕ, zero, suc, ◌+◌, ◌-◌, ◌/◌, ◌≡◌, ◌≢◌, refl, sym, ◌∙◌, true, List, [], ◌∷◌, length, arith, Fresh,
  some, Run, ok, panic, ◌>>=◌, set_at, set_at_self, set_at_ne, ne→==, lt→ltb,
}
use x_os_tmp.Kernel.{add32}
use x_os_tmp.Slab.{Slab, fits, page_start_pos, take_slot, tslab_malloc, tslab_free}

-- The slots from the pointer p on.
abbrev pub SlotChain : (ℕ → ℕ) → ℕ → List ℕ → Type 0
SlotChain next p [] = p ≡ 0
SlotChain next p (x ∷ xs) = (p ≡ x) × (x ≢ 0) × SlotChain next (next x) xs

-- The free slots of the size number n, and the number that is kept for their count.
pub record Listed (n : ℕ) (s : Slab) (xs : List ℕ) (count : ℕ) : Type 0 where
  pub chain : SlotChain s.slot_next (s.free_slab_head n) xs
  pub kept : s.free_slab_count n ≡ count

pub SlotChain-frame :
    (f : ℕ → ℕ) (y v p : ℕ) (xs : List ℕ)
    → Fresh y xs
    → SlotChain f p xs
    → SlotChain (set_at f y v) p xs
SlotChain-frame f y v p [] h c = c
SlotChain-frame f y v p (x ∷ xs) h c =
    (c.0, c.1, rw (ne→== x y h.0) (SlotChain-frame f y v (f x) xs h.1 c.2))

-- What a slot is when it has been handed out: the other sizes are as they were.
pub record Handed (n x : ℕ) (xs : List ℕ) (count : ℕ) (s s' : Slab) : Type 0 where
  pub listed : Listed n s' xs count
  pub used : s'.alloc_count (page_start_pos x) ≡ add32 (s.alloc_count (page_start_pos x)) 1
  pub links : s'.slot_next ≡ s.slot_next
  pub pages : s'.pages ≡ s.pages
  pub others :
      (m : ℕ)
      → m ≢ n
      → (s'.free_slab_head m ≡ s.free_slab_head m) × (s'.free_slab_count m ≡ s.free_slab_count m)

module _ (n x : ℕ) (xs : List ℕ) (count : ℕ) (s : Slab) (h : Listed n s (x ∷ xs) (suc count)) where
  pub take_slot-Handed : (s' : Slab) × (take_slot n s ≡ ok (x, s')) × Handed n x xs count s s'
  unfolding take_slot
  take_slot-Handed = (
    record s {
      free_slab_head = set_at s.free_slab_head n (s.slot_next x);
      free_slab_count = set_at s.free_slab_count n (s.free_slab_count n - 1);
      alloc_count =
          set_at s.alloc_count (page_start_pos x) (add32 (s.alloc_count (page_start_pos x)) 1);
    },
    rw (h.chain.0, h.kept, lt→ltb 0 (suc count) (omega arith)) refl,
    record {
      listed = record {
        chain = rw (set_at_self s.free_slab_head n (s.slot_next x)) (h.chain.2);
        kept = set_at_self s.free_slab_count n _ ∙ rw (h.kept) (omega arith);
      };
      used = set_at_self s.alloc_count (page_start_pos x) _;
      links = refl;
      pages = refl;
      others = λ m ne. (set_at_ne s.free_slab_head n _ m ne, set_at_ne s.free_slab_count n _ m ne);
    },
  )

  -- tslab_malloc of a size whose list of free slots is well formed, not empty and counted above 0
  -- answers the first slot, leaves the rest of the list with a count that is one lower, adds one to
  -- the objects of the page of the slot, and changes no list of another size.
  pub tslab_malloc-Handed :
      (size : ℕ)
      → fits size ≡ true
      → size / 16 - 1 ≡ n
      → (s' : Slab) × (tslab_malloc size s ≡ ok (some x, s')) × Handed n x xs count s s'
  unfolding tslab_malloc
  tslab_malloc-Handed size f e =
      let r = take_slot-Handed in
      (r.0, rw (f, e, ne→== (s.free_slab_head n) 0 nonzero, r.1) refl, r.2)
    where
      nonzero : s.free_slab_head n ≢ 0
      nonzero z = h.chain.1 (sym h.chain.0 ∙ z)

-- `times` calls of tslab_malloc one after the other.
unfoldable pub malloc_times : ℕ → ℕ → Slab → Run Slab
malloc_times zero size s = ok s
malloc_times (suc times) size s = do (got, s₁) ← tslab_malloc size s; malloc_times times size s₁

-- A list with slots and a count of 0 stops the kernel.
tslab_malloc-uncounted :
    (n size x : ℕ) (xs : List ℕ) (s : Slab)
    → fits size ≡ true
    → size / 16 - 1 ≡ n
    → Listed n s (x ∷ xs) 0
    → tslab_malloc size s ≡ panic
unfolding tslab_malloc take_slot
tslab_malloc-uncounted n size x xs s f e h =
    rw (f, e, ne→== (s.free_slab_head n) 0 (λ z. h.chain.1 (sym h.chain.0 ∙ z)), h.kept) refl

drain :
    (n size x : ℕ) (xs : List ℕ) (s : Slab)
    → fits size ≡ true
    → size / 16 - 1 ≡ n
    → Listed n s (x ∷ xs) (length xs)
    → (s' : Slab) × (malloc_times (length xs) size s ≡ ok s')
      × (s'.free_slab_head n ≢ 0)
      × (tslab_malloc size s' ≡ panic)
unfolding malloc_times
drain n size x [] s f e h =
    (s, refl, (λ z. h.chain.1 (sym h.chain.0 ∙ z)), tslab_malloc-uncounted n size x [] s f e h)
drain n size x (y ∷ ys) s f e h =
    let r = tslab_malloc-Handed n x (y ∷ ys) (length ys) s h size f e in
    let next = drain n size y ys r.0 f e r.2.listed in (next.0, rw (r.1) next.1, next.2, next.3)

module _ (n size mem count : ℕ) (xs : List ℕ) (s : Slab) (f : fits size ≡ true)
    (e : size / 16 - 1 ≡ n) (h : Listed n s xs count) where
  -- The page keeps an object, so that nothing but the list and the number of its objects changes.
  pub tslab_free-Listed :
      (fuel left : ℕ)
      → mem ≢ 0
      → Fresh mem xs
      → s.alloc_count (page_start_pos mem) ≡ 2 + left
      → (s' : Slab) × (tslab_free fuel mem size s ≡ ok s')
        × Listed n s' (mem ∷ xs) count
        × (s'.alloc_count (page_start_pos mem) ≡ 1 + left)
  unfolding tslab_free
  tslab_free-Listed fuel left ne fr a = (
    record s {
      slot_next = set_at s.slot_next mem (s.free_slab_head n);
      free_slab_head = set_at s.free_slab_head n mem;
      alloc_count = set_at s.alloc_count (page_start_pos mem) (1 + left);
    },
    rw (f, e, a, ne→== (2 + left) 0 (omega arith), less, ne→== (1 + left) 0 (omega arith)) refl,
    record {
      chain = (
        set_at_self s.free_slab_head n mem,
        ne,
        rw (set_at_self s.slot_next mem (s.free_slab_head n)) (
            SlotChain-frame s.slot_next mem (s.free_slab_head n) (s.free_slab_head n) xs fr
              h.chain),
      );
      kept = h.kept;
    },
    set_at_self s.alloc_count (page_start_pos mem) (1 + left),
  )
    where
      less : 2 + left - 1 ≡ 1 + left
      less = omega arith

-- When the list of free slots of a size is well formed and counted, tslab_free of a slot that is
-- not on it, in a page that keeps another object, puts the slot at the front of the list but
-- leaves the count: as many calls of tslab_malloc as the list had slots before succeed, and the
-- next one stops the kernel although the list has a slot.
pub tslab_free-uncounted :
    (n size mem fuel left : ℕ) (xs : List ℕ) (s : Slab)
    → fits size ≡ true
    → size / 16 - 1 ≡ n
    → Listed n s xs (length xs)
    → mem ≢ 0
    → Fresh mem xs
    → s.alloc_count (page_start_pos mem) ≡ 2 + left
    → (s₁ : Slab) × (tslab_free fuel mem size s ≡ ok s₁)
      × Listed n s₁ (mem ∷ xs) (length xs)
      × (s₂ : Slab) × (malloc_times (length xs) size s₁ ≡ ok s₂)
      × (s₂.free_slab_head n ≢ 0)
      × (tslab_malloc size s₂ ≡ panic)
tslab_free-uncounted n size mem fuel left xs s f e h ne fr a =
    let r = tslab_free-Listed n size mem (length xs) xs s f e h fuel left ne fr a in
    let d = drain n size mem xs r.0 f e r.2 in (r.0, r.1, r.2, d.0, d.1, d.2, d.3)
