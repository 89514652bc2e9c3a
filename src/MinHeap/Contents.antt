-- ===== src/MinHeap/Contents.antt =====
-- `min_heap_push` adds its element, and keeps the others and the order.
use x_os_tmp.Base.{
  ℕ, zero, suc, ◌+◌, ◌/◌, ◌^◌, ◌<◌, ◌≤◌, ◌≡◌, refl, ap, ◌==◌, leb, if◌then◌else◌, arith, Bool-cases,
  inl, inr, ==→eq, ==→ne, Run, ok, set_at, set_at_self, set_at_ne,
}
use x_os_tmp.Kernel.{long_lt, add32}
use x_os_tmp.MinHeap.Order.{Heaped, min_heap_push-Heaped}
use x_os_tmp.MinHeap.{Heap, sift_up, min_heap_push}

abbrev pub once : ℕ → ℕ → ℕ
once v a = if a == v then 1 else 0

-- How often `v` stands in the heap from 1 to n.
abbrev pub occurrences : ℕ → ℕ → Heap → ℕ
occurrences v zero h = 0
occurrences v (suc n) h = once v (h (suc n)) + occurrences v n h

occurrences-above :
    (v n i x : ℕ) (h : Heap) → n < i → occurrences v n (set_at h i x) ≡ occurrences v n h
occurrences-above v zero i x h lt = refl
occurrences-above v (suc n) i x h lt =
    rw (set_at_ne h i x (suc n) (omega arith), occurrences-above v n i x h (omega arith)) refl

occurrences-zero : (v n x : ℕ) (h : Heap) → occurrences v n (set_at h 0 x) ≡ occurrences v n h
occurrences-zero v zero x h = refl
occurrences-zero v (suc n) x h =
    rw (set_at_ne h 0 x (suc n) (omega arith), occurrences-zero v n x h) refl

occurrences-set_at :
    (v n i x : ℕ) (h : Heap)
    → 1 ≤ i
    → i ≤ n
    → occurrences v n (set_at h i x) + once v (h i) ≡ occurrences v n h + once v x
occurrences-set_at v zero i x h one up = absurd (omega arith)
occurrences-set_at v (suc n) i x h one up = elim (Bool-cases (suc n == i)) [
  | inl e ↦
      rw (← ==→eq (suc n) i e) (
        rw (set_at_self h (suc n) x, occurrences-above v n (suc n) x h (omega arith)) (omega arith))
  | inr e ↦
      let ih = occurrences-set_at v n i x h one (omega (arith, ==→ne (suc n) i e)) in
      rw (set_at_ne h i x (suc n) (==→ne (suc n) i e)) (omega (arith, ih))
]

sift_up-occurrences :
    (f val n i v : ℕ) (h h' : Heap)
    → i < f
    → 1 ≤ i
    → i ≤ n
    → sift_up f val i h ≡ ok h'
    → occurrences v n h' + once v (h i) ≡ occurrences v n h + once v val
unfolding sift_up
sift_up-occurrences zero val n i v h h' lt one up e = absurd (omega arith)
sift_up-occurrences (suc f) val n i v h h' lt one up e = elim (Bool-cases (leb i 1)) [
  | inl a ↦ stop (rw a at e)
  | inr a ↦ elim (Bool-cases (long_lt (h (i / 2)) val)) [
    | inl b ↦ stop (rw (a, b) at e)
    | inr b ↦
        let two : 2 ≤ i = ground arith in
        let g : Heap = set_at h i (h (i / 2)) in
        let ih =
          sift_up-occurrences f val n (i / 2) v g h' (omega arith) (omega arith) (omega arith)
            (rw (a, b) at e) in
        let moved = occurrences-set_at v n i (h (i / 2)) h one up in
        let same : g (i / 2) ≡ h (i / 2) = set_at_ne h i (h (i / 2)) (i / 2) (λ w. omega arith) in
        omega (arith, rw same at ih, moved)
  ]
]
  where
    of_ok : (a b : Heap) → Run.ok a ≡ ok b → a ≡ b
    of_ok a b w = cc

    stop :
        Run.ok (set_at h i val) ≡ ok h'
        → occurrences v n h' + once v (h i) ≡ occurrences v n h + once v val
    stop w = rw (← of_ok _ _ w) (occurrences-set_at v n i val h one up)

grown : (v n m : ℕ) (h : Heap) → m ≡ suc n → occurrences v m h ≡ once v (h m) + occurrences v n h
grown v n m h e = rw e refl

min_heap_push-occurrences :
    (f val v : ℕ) (h h' : Heap)
    → h 0 + 1 < f
    → h 0 + 1 < 2 ^ 31
    → min_heap_push f val h ≡ ok h'
    → occurrences v (h 0 + 1) h' ≡ occurrences v (h 0) h + once v val
unfolding min_heap_push
min_heap_push-occurrences f val v h h' lt b e =
    let r =
      sift_up-occurrences f val (h 0 + 1) (h 0 + 1) v (set_at h 0 more) h' lt (omega arith)
        (omega arith) e in
    let z = occurrences-zero v (h 0 + 1) more h in
    let g = grown v (h 0) (h 0 + 1) h (omega arith) in
    let l = ap (once v) last in omega (arith, r, z, g, l)
  where
    more : ℕ
    more = add32 (h 0) 1

    last : set_at h 0 more (h 0 + 1) ≡ h (h 0 + 1)
    last = set_at_ne h 0 more (h 0 + 1) (omega arith)

-- On a heap in which no element is smaller than its parent, with room for one more and fuel above
-- the new size, min_heap_push ends with such a heap of one element more, which holds each number
-- as often as before and the new one once more.
pub min_heap_push-inserts :
    (f val : ℕ) (h : Heap)
    → h 0 + 1 < f
    → h 0 + 1 < 2 ^ 31
    → Heaped (h 0) h
    → (h' : Heap) × (min_heap_push f val h ≡ ok h')
      × Heaped (h 0 + 1) h'
      × (h' 0 ≡ h 0 + 1)
      × ((v : ℕ) → occurrences v (h 0 + 1) h' ≡ occurrences v (h 0) h + once v val)
min_heap_push-inserts f val h lt b o =
    let (h', e, r, s) = min_heap_push-Heaped f val h lt b o in
    (h', e, r, s, λ v. min_heap_push-occurrences f val v h h' lt b e)
