-- ===== src/MinHeap/Order.antt =====
-- `min_heap_push` keeps the order of the heap.
use x_os_tmp.Base.{
  ℕ, zero, suc, ◌+◌, ◌/◌, ◌%◌, ◌^◌, ◌<◌, ◌≤◌, ◌≡◌, ◌≢◌, refl, sym, ◌∙◌, ap, subst, ◌==◌, leb, arith,
  Bool-cases, inl, inr, ==→eq, ==→ne, ltb→lt, ltb→le, ok, set_at, set_at_self, set_at_ne,
}
use x_os_tmp.Kernel.{long_lt, add32}
use x_os_tmp.MinHeap.{Heap, sift_up, min_heap_push}

-- The place of the `int` with this bit pattern in the order of the `int`s.
abbrev pub key : ℕ → ℕ
key a = (a + 2 ^ 31) % 2 ^ 32

-- No element from 1 to n is smaller than its parent.
abbrev pub Heaped : ℕ → Heap → Type 0
Heaped n h = (j : ℕ) → 2 ≤ j → j ≤ n → key (h (j / 2)) ≤ key (h j)

-- The heap with a hole at i, in which `val` may be put if the parent of i is not larger.
record Hole (n val i : ℕ) (h : Heap) : Type 0 where
  order : (j : ℕ) → 2 ≤ j → j ≤ n → j ≢ i → j / 2 ≢ i → key (h (j / 2)) ≤ key (h j)
  under : (j : ℕ) → 2 ≤ j → j ≤ n → j / 2 ≡ i → key val ≤ key (h j)
  over : (j : ℕ) → 2 ≤ j → j ≤ n → j / 2 ≡ i → 2 ≤ i → key (h (i / 2)) ≤ key (h j)

half-ne : (i : ℕ) → 1 ≤ i → i / 2 ≢ i
half-ne i h e = omega arith

settled :
    (n val i : ℕ) (h : Heap)
    → 1 ≤ i
    → Hole n val i h
    → (2 ≤ i → key (h (i / 2)) ≤ key val)
    → Heaped n (set_at h i val)
settled n val i h one o fits j lo hi = elim (Bool-cases (j == i)) [
  | inl e ↦ rw (==→eq j i e) (
      rw (set_at_self h i val, set_at_ne h i val (i / 2) (half-ne i one))
        (fits (subst (λ z. 2 ≤ z) (==→eq j i e) lo)))
  | inr e ↦ elim (Bool-cases (j / 2 == i)) [
    | inl p ↦ rw (set_at_ne h i val j (==→ne j i e), p) (o.under j lo hi (==→eq (j / 2) i p))
    | inr p ↦
        rw (set_at_ne h i val j (==→ne j i e), set_at_ne h i val (j / 2) (==→ne (j / 2) i p))
          (o.order j lo hi (==→ne j i e) (==→ne (j / 2) i p))
  ]
]

-- The parent moves down into the hole.
raised :
    (n val i : ℕ) (h : Heap)
    → 2 ≤ i
    → i ≤ n
    → Hole n val i h
    → key val ≤ key (h (i / 2))
    → Hole n val (i / 2) (set_at h i (h (i / 2)))
raised n val i h two up o le = record { order = order'; under = under'; over = over' }
  where
    g : Heap
    g = set_at h i (h (i / 2))

    at_i : g i ≡ h (i / 2)
    at_i = set_at_self h i (h (i / 2))

    off : (j : ℕ) → j ≢ i → g j ≡ h j
    off j ne = set_at_ne h i (h (i / 2)) j ne

    order' : (j : ℕ) → 2 ≤ j → j ≤ n → j ≢ i / 2 → j / 2 ≢ i / 2 → key (g (j / 2)) ≤ key (g j)
    order' j lo hi a b = elim (Bool-cases (j / 2 == i)) [
      | inl p ↦
          rw (==→eq (j / 2) i p, at_i, off j (λ e. b (ap (λ z. z / 2) e)))
            (o.over j lo hi (==→eq (j / 2) i p) two)
      | inr p ↦
          rw (off (j / 2) (==→ne (j / 2) i p), off j (λ e. b (ap (λ z. z / 2) e)))
            (o.order j lo hi (λ e. b (ap (λ z. z / 2) e)) (==→ne (j / 2) i p))
    ]

    sibling : (j : ℕ) → 2 ≤ j → j ≤ n → j / 2 ≡ i / 2 → j ≢ i → key (h (i / 2)) ≤ key (h j)
    sibling j lo hi b ne = rw (← b) (o.order j lo hi ne (λ e. half-ne i (omega arith) (sym b ∙ e)))

    under' : (j : ℕ) → 2 ≤ j → j ≤ n → j / 2 ≡ i / 2 → key val ≤ key (g j)
    under' j lo hi b = elim (Bool-cases (j == i)) [
      | inl e ↦ rw (==→eq j i e, at_i) le
      | inr e ↦
          let s = sibling j lo hi b (==→ne j i e) in rw (off j (==→ne j i e)) (omega (arith, s))
    ]

    grand : 2 ≤ i / 2 → key (h (i / 2 / 2)) ≤ key (h (i / 2))
    grand t = o.order (i / 2) t (omega arith) (half-ne i (omega arith)) (λ e. omega arith)

    top : 2 ≤ i / 2 → i / 2 / 2 ≢ i
    top t e = omega arith

    over' : (j : ℕ) → 2 ≤ j → j ≤ n → j / 2 ≡ i / 2 → 2 ≤ i / 2 → key (g (i / 2 / 2)) ≤ key (g j)
    over' j lo hi b t = elim (Bool-cases (j == i)) [
      | inl e ↦ rw (off (i / 2 / 2) (top t), ==→eq j i e, at_i) (grand t)
      | inr e ↦
          let s = sibling j lo hi b (==→ne j i e) in
          let u = grand t in rw (off (i / 2 / 2) (top t), off j (==→ne j i e)) (omega (arith, s, u))
    ]

sift_up-Heaped :
    (f val n i : ℕ) (h : Heap)
    → i < f
    → 1 ≤ i
    → i ≤ n
    → Hole n val i h
    → (h' : Heap) × (sift_up f val i h ≡ ok h') × Heaped n h' × (h' 0 ≡ h 0)
unfolding sift_up
sift_up-Heaped zero val n i h lt one up o = absurd (omega arith)
sift_up-Heaped (suc f) val n i h lt one up o = elim (Bool-cases (leb i 1)) [
  | inl a ↦ (
    set_at h i val,
    rw a refl,
    settled n val i h one o (λ t. absurd (ground arith)),
    set_at_ne h i val 0 (omega arith),
  )
  | inr a ↦ elim (Bool-cases (long_lt (h (i / 2)) val)) [
    | inl b ↦ (
      set_at h i val,
      rw (a, b) refl,
      settled n val i h one o (λ t. omega (arith, ltb→lt _ _ b)),
      set_at_ne h i val 0 (omega arith),
    )
    | inr b ↦
        let two : 2 ≤ i = ground arith in
        let (h', e, r, s) =
          sift_up-Heaped f val n (i / 2) (set_at h i (h (i / 2))) (omega arith) (omega arith)
            (omega arith) (raised n val i h two up o (ltb→le _ _ b)) in
        (h', rw (a, b) e, r, s ∙ set_at_ne h i (h (i / 2)) 0 (omega arith))
  ]
]

pub min_heap_push-Heaped :
    (f val : ℕ) (h : Heap)
    → h 0 + 1 < f
    → h 0 + 1 < 2 ^ 31
    → Heaped (h 0) h
    → (h' : Heap) × (min_heap_push f val h ≡ ok h') × Heaped (h 0 + 1) h' × (h' 0 ≡ h 0 + 1)
unfolding min_heap_push
min_heap_push-Heaped f val h lt b o =
    let (h', e, r, s) =
      sift_up-Heaped f val (h 0 + 1) (h 0 + 1) (set_at h 0 more) lt (omega arith) (omega arith)
        hole in
    (h', e, r, s ∙ set_at_self h 0 more ∙ omega arith)
  where
    more : ℕ
    more = add32 (h 0) 1

    hole : Hole (h 0 + 1) val (h 0 + 1) (set_at h 0 more)
    hole = record {
      order = λ j lo hi a c.
          rw (set_at_ne h 0 more j (omega arith), set_at_ne h 0 more (j / 2) (omega arith))
            (o j lo (omega arith));
      under = λ j lo hi e. absurd (omega arith);
      over = λ j lo hi e t. absurd (omega arith);
    }
