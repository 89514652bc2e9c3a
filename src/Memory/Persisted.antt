-- ===== src/Memory/Persisted.antt =====
-- `kgetpersistedmem`: the permanent memory of the kernel grows by free pages until it is enough.
use Prim.Native.Nat.{bit_or}
use x_os_tmp.Base.{
  ℕ, zero, suc, ◌+◌, ◌*◌, ◌%◌, ◌^◌, ◌≤◌, ◌<◌, ◌≡◌, refl, ap, subst, ◌∙◌, List, [], ◌∷◌, ◌++◌,
  length, arith, Bool-cases, inl, inr, ltb, ltb→lt, lt→ltb, eq→==, ok, true, false, set_at,
  set_at_self, set_at_ne,
}
use x_os_tmp.Kernel.{add32}
use x_os_tmp.Memory.{
  Memory, kmem_start, mem_flags_p, mem_flags_k, mem_flags_l, entry, mapping_page, grow_until,
  kgetpersistedmem,
}
use x_os_tmp.Memory.FreeList.{FreeInv, after, after-FreeInv, getonefreepage_unblocking-after}

-- The entries from `e` on map the pages of the list, for the kernel to write.
abbrev pub Maps : (ℕ → ℕ) → ℕ → List ℕ → Type 0
Maps table e [] = Unit
Maps table e (x ∷ xs) = (table e ≡ x * 4096 % 2 ^ 32 + 3) × Maps table (e + 1) xs

-- The pages `used` have been taken from the free list and mapped behind the memory, until `size`
-- bytes more ended below its capacity.
pub record Grown (size : ℕ) (m m' : Memory) (xs : List ℕ) : Type 0 where
  pub used : List ℕ
  pub rest : List ℕ
  pub parted : xs ≡ used ++ rest
  pub free : FreeInv m' rest
  pub ends : m'.end_of_kernel ≡ m.end_of_kernel + size
  pub capacity : m'.capacity ≡ m.capacity + length used * 4096
  pub enough : m'.end_of_kernel < m'.capacity
  pub mapped : Maps m'.page_table (entry m.capacity) used
  pub below : (e : ℕ) → e < entry m.capacity → m'.page_table e ≡ m.page_table e

abbrev pkl : ℕ
pkl = bit_or (bit_or mem_flags_p mem_flags_k) mem_flags_l

module _ (size x : ℕ) (xs : List ℕ) (m : Memory) (inv : FreeInv m (x ∷ xs)) where
  abbrev taken : Memory
  taken = after m x xs 1 pkl inv

  -- The memory after a round.
  abbrev mapped : Memory
  mapped = record taken {
    page_table = set_at m.page_table (entry m.capacity) (x * 4096 % 2 ^ 32 + 3);
    capacity = add32 m.capacity 4096;
  }

  mapped-FreeInv : FreeInv mapped xs
  mapped-FreeInv =
      let i = after-FreeInv m x xs 1 pkl inv in
      record {
        chain = i.chain;
        distinct = i.distinct;
        counted = i.counted;
        small = i.small;
        nobody = i.nobody;
      }

  round :
      (f : ℕ)
      → m.capacity % 4096 ≡ 0
      → ltb (add32 m.end_of_kernel size) m.capacity ≡ false
      → grow_until (suc f) size m ≡ grow_until f size mapped
  unfolding grow_until mapping_page
  round f a h =
      rw
        (
          h,
          getonefreepage_unblocking-after m x xs 1 pkl inv,
          a,
          eq→== (x * 4096 % 2 ^ 32 % 4096) 0 (omega arith),
        )
        refl

-- Where the memory is enough, nothing is taken.
stop :
    (f size : ℕ) (m : Memory) (xs : List ℕ)
    → FreeInv m xs
    → m.end_of_kernel + size < 2 ^ 32
    → ltb (add32 m.end_of_kernel size) m.capacity ≡ true
    → (m' : Memory) × (grow_until (suc f) size m ≡ ok m') × Grown size m m' xs
unfolding grow_until
stop f size m xs inv b h = (
  record m { end_of_kernel = add32 m.end_of_kernel size },
  rw h refl,
  record {
    used = [];
    rest = xs;
    parted = refl;
    free = record {
      chain = inv.chain;
      distinct = inv.distinct;
      counted = inv.counted;
      small = inv.small;
      nobody = inv.nobody;
    };
    ends = omega arith;
    capacity = omega arith;
    enough = ltb→lt _ _ h;
    mapped = tt;
    below = λ e l. refl;
  },
)

grow_until-Grown :
    (f size : ℕ) (m : Memory) (xs : List ℕ)
    → FreeInv m xs
    → length xs < f
    → m.capacity % 4096 ≡ 0
    → kmem_start ≤ m.capacity
    → m.capacity + length xs * 4096 < 2 ^ 32
    → m.end_of_kernel + size < m.capacity + length xs * 4096
    → (m' : Memory) × (grow_until f size m ≡ ok m') × Grown size m m' xs
grow_until-Grown zero size m xs inv hf a lo hi h = absurd (omega (arith, hf))
grow_until-Grown (suc f) size m [] inv hf a lo hi h =
    stop f size m [] inv (omega (arith, hi, h))
      (lt→ltb (add32 m.end_of_kernel size) m.capacity (omega (arith, hi, h)))
grow_until-Grown (suc f) size m (x ∷ xs) inv hf a lo hi h =
    elim (Bool-cases (ltb (add32 m.end_of_kernel size) m.capacity)) [
      | inl e ↦ stop f size m (x ∷ xs) inv (omega (arith, hi, h)) e
      | inr e ↦
          let next =
            grow_until-Grown f size (mapped size x xs m inv) xs (mapped-FreeInv size x xs m inv)
              (omega (arith, hf)) (omega (arith, a, hi)) (omega (arith, lo, hi)) (omega (arith, hi))
              (omega (arith, hi, h)) in
          let g = next.2 in
          let e' : entry (add32 m.capacity 4096) ≡ entry m.capacity + 1 =
            omega (arith, a, lo, hi) in
          (
            next.0,
            round size x xs m inv f a e ∙ next.1,
            record {
              used = x ∷ g.used;
              rest = g.rest;
              parted = ap (λ w. x ∷ w) g.parted;
              free = g.free;
              ends = g.ends;
              capacity = omega (arith, g.capacity, hi);
              enough = g.enough;
              mapped = (
                g.below (entry m.capacity) (omega (arith, e'))
                    ∙ set_at_self m.page_table (entry m.capacity) (x * 4096 % 2 ^ 32 + 3),
                subst (λ w. Maps next.0.page_table w g.used) e' g.mapped,
              );
              below = λ i l.
                  g.below i (omega (arith, e', l))
                  ∙ set_at_ne m.page_table (entry m.capacity) (x * 4096 % 2 ^ 32 + 3) i
                      (omega (arith, l));
            },
          )
    ]

-- On a well-formed free list of fewer pages than there is fuel, whose pages are enough for a size
-- that is a multiple of 4 without an address behind 2^32, kgetpersistedmem ends and answers the
-- old end of the memory: it takes pages from the front of the list and maps them one behind the
-- other from the old capacity on, until the new end is below the new capacity, and leaves the
-- entries below and the rest of the list as they were.
pub kgetpersistedmem-Grown :
    (fuel size : ℕ) (m : Memory) (xs : List ℕ)
    → FreeInv m xs
    → length xs < fuel
    → size % 4 ≡ 0
    → m.capacity % 4096 ≡ 0
    → kmem_start ≤ m.capacity
    → m.capacity + length xs * 4096 < 2 ^ 32
    → m.end_of_kernel + size < m.capacity + length xs * 4096
    → (m' : Memory) × (kgetpersistedmem fuel size m ≡ ok (m.end_of_kernel, m')) × Grown size m m' xs
unfolding kgetpersistedmem
kgetpersistedmem-Grown fuel size m xs inv hf q a lo hi h =
    let g = grow_until-Grown fuel size m xs inv hf a lo hi h in
    (g.0, rw (eq→== (size % 4) 0 q, g.1) refl, g.2)
