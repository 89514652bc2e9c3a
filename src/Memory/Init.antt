-- ===== src/Memory/Init.antt =====
-- `init_mem_desc`: the free list that the kernel starts with, and its semaphore.
use x_os_tmp.Base.{
  Bool-cases, ==→eq, ==→ne, ℕ, zero, suc, ◌+◌, ◌-◌, ◌%◌, ◌^◌, ◌<◌, ◌≤◌, ◌≡◌, refl, sym, subst, ◌∙◌,
  ap, ◌==◌, List, [], ◌∷◌, ◌++◌, length, length-append, arith, Distinct, ok, set_at, set_at_self,
  set_at_ne, In, In-append, Fresh-of_not-In, inl, inr,
}
use mathlib.Core.List.{append-nil}
use x_os_tmp.CircularList.{head, Links, circular_list_init}
use x_os_tmp.CircularList.Seg.{Ring, update_self}
use x_os_tmp.Kernel.{add32, sub32}
use x_os_tmp.Semaphore.{ksemaphore_init}
use x_os_tmp.Memory.{
  Memory, Point, null, desc, mem_semaphore, fill, has_used, init_descs, init_mem_desc,
}
use x_os_tmp.Memory.FreeList.{Chain, FreeInv}

fill_below {ℓ} : {A : Type ℓ} (lo n : ℕ) (g f : ℕ → A) (i : ℕ) → i < lo → fill lo n g f i ≡ f i
unfolding fill
fill_below lo zero g f i h = refl
fill_below lo (suc n) g f i h =
    fill_below (lo + 1) n g _ i (omega arith) ∙ set_at_ne f lo (g lo) i (omega arith)

fill_in {ℓ} :
    {A : Type ℓ} (lo n : ℕ) (g f : ℕ → A) (i : ℕ) → lo ≤ i → i < lo + n → fill lo n g f i ≡ g i
unfolding fill
fill_in lo zero g f i h k = absurd (omega arith)
fill_in lo (suc n) g f i h k = elim (Bool-cases (i == lo)) [
  | inl e ↦ rw (==→eq i lo e) (fill_below (lo + 1) n g _ lo (omega arith) ∙ set_at_self f lo (g lo))
  | inr e ↦ let ne = ==→ne i lo e in fill_in (lo + 1) n g _ i (omega arith) (omega arith)
]

-- `lo`, `lo + 1`, and so on, `n` of them.
abbrev pub range : ℕ → ℕ → List ℕ
range lo zero = []
range lo (suc n) = lo ∷ range (lo + 1) n

length-range : (lo n : ℕ) → length (range lo n) ≡ n
length-range lo zero = refl
length-range lo (suc n) = ap suc (length-range (lo + 1) n)

In-range : (p lo n : ℕ) → In p (range lo n) → (lo ≤ p) × (p < lo + n)
In-range p lo zero m = absurd m
In-range p lo (suc n) (inl e) = (omega arith, omega arith)
In-range p lo (suc n) (inr m) = let h = In-range p (lo + 1) n m in (omega arith, omega arith)

Distinct-range :
    (lo n : ℕ) (rest : List ℕ)
    → ((p : ℕ) → In p rest → lo + n ≤ p)
    → Distinct rest
    → Distinct (range lo n ++ rest)
Distinct-range lo zero rest h d = d
Distinct-range lo (suc n) rest h d = (
  Fresh-of_not-In lo (range (lo + 1) n ++ rest) (λ m.
      elim (In-append lo (range (lo + 1) n) rest m) [
        | inl a ↦ let b = In-range lo (lo + 1) n a in omega arith
        | inr a ↦ let b = h lo a in omega arith
      ]),
  Distinct-range (lo + 1) n rest (λ p m. omega (arith, h p m)) d,
)

Chain-range :
    (point : ℕ → Point) (lo n : ℕ) (rest : List ℕ)
    → ((i : ℕ) → lo ≤ i → i < lo + n → point i ≡ desc (i + 1))
    → Chain point (point (lo + n)) rest
    → Chain point (desc lo) (range lo (suc n) ++ rest)
Chain-range point lo zero rest h c = (refl, rw (← lo-zero) c)
  where
    lo-zero : lo + 0 ≡ lo
    lo-zero = omega arith
Chain-range point lo (suc n) rest h c = (
  refl,
  rw (h lo (omega arith) (omega arith))
      (Chain-range point (lo + 1) n rest (λ i a b. h i (omega arith) (omega arith)) (rw same c)),
)
  where
    same : lo + 1 + n ≡ lo + suc n
    same = omega arith

init_nobody : (l : Links) → Ring (circular_list_init (head mem_semaphore) l) mem_semaphore []
unfolding circular_list_init
init_nobody l = record {
  seg = (update_self l.next (head 0) (head 0), update_self l.pre (head 0) (head 0));
  distinct = tt;
}

-- The links after each loop of `init_mem_desc`, and after the assignments behind them.
abbrev nexts : ℕ → Point
nexts i = desc (i + 1)

abbrev nulls : ℕ → Point
nulls i = null

abbrev above_640k : ℕ → Point
above_640k = fill 160 96 nulls (fill 0 160 nexts nulls)

abbrev above_1m : ℕ → Point
above_1m = fill 256 256 nulls above_640k

abbrev above_2m : ℕ → ℕ → Point
above_2m h = fill 512 (h - 512) nulls above_1m

abbrev above_kernel : ℕ → ℕ → ℕ → Point
above_kernel h n = fill h (n - h) nexts (above_2m h)

abbrev joined : ℕ → ℕ → ℕ → Point
joined h n = set_at (above_kernel h n) 159 (desc h)

abbrev ended : ℕ → ℕ → ℕ → Point
ended h n = set_at (joined h n) (sub32 n 1) null

module _ (h n : ℕ) (a : 256 ≤ h) (b : h < n) (c : n ≤ 2 ^ 20) where
  point-low : (i : ℕ) → i < 159 → ended h n i ≡ desc (i + 1)
  point-low i k =
      set_at_ne (joined h n) (sub32 n 1) null i (omega arith)
      ∙ set_at_ne (above_kernel h n) 159 (desc h) i (omega arith)
      ∙ fill_below h (n - h) nexts (above_2m h) i (omega arith)
      ∙ fill_below 512 (h - 512) nulls above_1m i (omega arith)
      ∙ fill_below 256 256 nulls above_640k i (omega arith)
      ∙ fill_below 160 96 nulls (fill 0 160 nexts nulls) i (omega arith)
      ∙ fill_in 0 160 nexts nulls i (omega arith) (omega arith)

  point-gap : ended h n 159 ≡ desc h
  point-gap =
      set_at_ne (joined h n) (sub32 n 1) null 159 (omega arith)
      ∙ set_at_self (above_kernel h n) 159 (desc h)

  point-high : (i : ℕ) → h ≤ i → i < n - 1 → ended h n i ≡ desc (i + 1)
  point-high i k l =
      set_at_ne (joined h n) (sub32 n 1) null i (omega arith)
      ∙ set_at_ne (above_kernel h n) 159 (desc h) i (omega arith)
      ∙ fill_in h (n - h) nexts (above_2m h) i k (omega arith)

  point-end : ended h n (n - 1) ≡ null
  point-end = rw (← last) (set_at_self (joined h n) (sub32 n 1) null)
    where
      last : sub32 n 1 ≡ n - 1
      last = omega arith

  -- From page 0 to the last page below 640 KB, and on from the first page above the kernel.
  Chain-ended : Chain (ended h n) (desc 0) (range 0 160 ++ range h (n - h))
  Chain-ended =
      Chain-range (ended h n) 0 159 (range h (n - h)) (λ i u v. point-low i (omega arith))
        (rw point-gap (
          subst (λ k. Chain (ended h n) (desc h) (range h k)) count
            (subst (Chain (ended h n) (desc h)) (append-nil (range h (suc (n - h - 1)))) upper)))
    where
      count : suc (n - h - 1) ≡ n - h
      count = omega arith

      end : h + (n - h - 1) ≡ n - 1
      end = omega arith

      upper : Chain (ended h n) (desc h) (range h (suc (n - h - 1)) ++ [])
      upper =
          Chain-range (ended h n) h (n - h - 1) [] (λ i u v. point-high i u (omega arith))
            (rw end point-end)

-- When the capacity is a multiple of the page size and a page lies above the kernel, init_mem_desc
-- ends with a free list of the pages 0 to 159 followed by the pages above the kernel, in order and
-- without repetition, and the semaphore counts them.
pub init_mem_desc-FreeInv :
    (pagecount : ℕ) (m : Memory)
    → m.capacity % 4096 ≡ 0
    → 256 + has_used m < pagecount
    → pagecount ≤ 2 ^ 20
    → (m' : Memory) × (init_mem_desc pagecount m ≡ ok m')
      × FreeInv m' (range 0 160 ++ range (256 + has_used m) (pagecount - (256 + has_used m)))
unfolding init_mem_desc ksemaphore_init
init_mem_desc-FreeInv pagecount m a b c = (
  init_descs pagecount m,
  rw a refl,
  record {
    chain = Chain-ended (256 + has_used m) pagecount (omega arith) b c;
    distinct =
        Distinct-range 0 160 _ (λ p k. omega (arith, (In-range p _ _ k).0))
          (rw (← append-nil (range (256 + has_used m) (pagecount - (256 + has_used m)))) (
            Distinct-range (256 + has_used m) (pagecount - (256 + has_used m)) [] (λ p k. absurd k)
              tt));
    counted = units ∙ sym size;
    small = rw size (omega arith);
    nobody = init_nobody m.kernel.wait_links;
  },
)
  where
    size :
        length (range 0 160 ++ range (256 + has_used m) (pagecount - (256 + has_used m)))
        ≡ 160 + (pagecount - (256 + has_used m))
    size =
        length-append (range 0 160) (range (256 + has_used m) (pagecount - (256 + has_used m)))
        ∙ omega (arith, length-range (256 + has_used m) (pagecount - (256 + has_used m)))

    units :
        sub32 (sub32 (add32 160 pagecount) 256) (has_used m)
        ≡ 160 + (pagecount - (256 + has_used m))
    units = omega arith
