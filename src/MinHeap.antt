-- ===== src/MinHeap.antt =====
-- src/min_heap.c: a binary heap of `int`s in an array; heap[0] is the size, and the children of i
-- are 2 * i and 2 * i + 1.
-- The array is a function of the index to the bit patterns, which `long_lt` compares as `int`s.
pub mod Order
pub mod Contents
use x_os_tmp.Base.{
  ℕ, zero, suc, ◌+◌, ◌*◌, ◌/◌, Bool, ltb, leb, ◌&&◌, if◌then◌else◌, Run, ok, out_of_fuel, ◌>>=◌,
  set_at,
}
use x_os_tmp.Kernel.{long_lt, add32, sub32}

abbrev pub Heap : Type 0
Heap = ℕ → ℕ

abbrev pub int_max : ℕ
int_max = 0x7fffffff

-- The child that the source goes down to: the left one only if it is smaller.
abbrev pub smaller_child : ℕ → Heap → ℕ
smaller_child i heap = if long_lt (heap (2 * i)) (heap (2 * i + 1)) then 2 * i else 2 * i + 1

-- `val < heap[d] && val < heap[d + 1]`
abbrev pub settles : ℕ → ℕ → Heap → Bool
settles val i heap = long_lt val (heap (2 * i)) && long_lt val (heap (2 * i + 1))

-- The loop of `min_heap_pop` from `i`, with the assignment behind it.
pub sift_down : ℕ → ℕ → ℕ → ℕ → Heap → Run Heap
sift_down zero half val i heap = out_of_fuel
sift_down (suc f) half val i heap =
    let j = smaller_child i heap in
    let rest = sift_down f half val j (set_at heap i (heap j)) in
    if ltb half i
    then ok (set_at heap i val)
    else if settles val i heap
    then ok (set_at heap i val)
    else rest

-- `for(i = half; i > 0; --i)`: the `do` of the source tests behind its first round, and i is at
-- most half in it.
pub heapify : ℕ → ℕ → ℕ → Heap → Run Heap
unfolding sift_down
heapify fuel half zero heap = ok heap
heapify fuel half (suc i) heap = do
  heap' ← sift_down fuel half (heap (suc i)) (suc i) heap
  heapify fuel half i heap'

unfoldable pub min_heap_init : ℕ → Heap → Run Heap
unfolding heapify
min_heap_init fuel heap = heapify fuel (heap 0 / 2) (heap 0 / 2) heap

pub sift_up : ℕ → ℕ → ℕ → Heap → Run Heap
sift_up zero val i heap = out_of_fuel
sift_up (suc f) val i heap =
    let half = i / 2 in
    let rest = sift_up f val half (set_at heap i (heap half)) in
    if leb i 1
    then ok (set_at heap i val)
    else if long_lt (heap half) val
    then ok (set_at heap i val)
    else rest

unfoldable pub min_heap_push : ℕ → ℕ → Heap → Run Heap
unfolding sift_up
min_heap_push fuel val heap =
    let size = heap 0 in sift_up fuel val (size + 1) (set_at heap 0 (add32 size 1))

unfoldable pub min_heap_pop : ℕ → Heap → Run Heap
unfolding sift_down
min_heap_pop fuel heap = do
  let size = heap 0
  heap' ← sift_down fuel (size / 2) (heap size) 1 (set_at heap size int_max)
  ok (set_at heap' 0 (sub32 (heap' 0) 1))
