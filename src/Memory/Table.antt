-- ===== src/Memory/Table.antt =====
-- The page table of the kernel's half: a mapping can be read back, and disturbs no other page.
use x_os_tmp.Base.{
  ℕ, ◌+◌, ◌%◌, ◌^◌, ◌<◌, ◌≤◌, ◌≡◌, ◌≢◌, refl, ◌==◌, Bool, true, false, arith, lt→ltb, if◌then◌else◌,
  ok, set_at, set_at_self, set_at_ne, Bool-cases, inl, inr, ==→eq, ==→ne,
}
use x_os_tmp.Memory.{Memory, kmem_start, entry, mapping_page, unmapping_page, get_physical_addr}

-- Two different pages of the kernel's half have different entries.
pub entry-ne :
    (d e : ℕ)
    → d % 4096 ≡ 0
    → e % 4096 ≡ 0
    → kmem_start ≤ d
    → d < 2 ^ 32
    → kmem_start ≤ e
    → e < 2 ^ 32
    → d ≢ e
    → entry d ≢ entry e
entry-ne d e a b c f g h ne w = ne (omega arith)

-- After mapping_page of an aligned page of the kernel half with aligned source and a type below 8,
-- get_physical_addr answers the source for that page and what it answered before for every other
-- one, and the free list is left alone.
pub get_physical_addr-mapping_page :
    (dst d src type : ℕ) (m : Memory)
    → dst % 4096 ≡ 0
    → src % 4096 ≡ 0
    → type < 8
    → kmem_start ≤ dst
    → dst < 2 ^ 32
    → d % 4096 ≡ 0
    → kmem_start ≤ d
    → d < 2 ^ 32
    → (m' : Memory) × (mapping_page dst src type m ≡ ok m')
      × (get_physical_addr d m' ≡ (if d == dst then src else get_physical_addr d m))
      × (m'.free_head ≡ m.free_head)
      × (m'.point ≡ m.point)
unfolding mapping_page get_physical_addr
get_physical_addr-mapping_page dst d src type m a s t lo hi b lo' hi' = (
  record m { page_table = set_at m.page_table (entry dst) (src + type) },
  rw (a, s, lt→ltb _ _ t) refl,
  elim (Bool-cases (d == dst)) [
    | inl e ↦ rw (e, ==→eq d dst e, set_at_self m.page_table (entry dst) (src + type)) (omega arith)
    | inr e ↦
        rw
          (
            e,
            set_at_ne m.page_table (entry dst) (src + type) (entry d)
                (entry-ne d dst b a lo' hi' lo hi (==→ne d dst e)),
          )
          refl
  ],
  refl,
  refl,
)

-- With an aligned page and source and a type below 8, get_physical_addr answers 0 after
-- unmapping_page, and a mapping after it leaves the table that the mapping alone leaves.
pub mapping_page-unmapping_page :
    (dst src type : ℕ) (m : Memory)
    → dst % 4096 ≡ 0
    → src % 4096 ≡ 0
    → type < 8
    → (m' : Memory) × (unmapping_page dst m ≡ ok m')
      × (get_physical_addr dst m' ≡ 0)
      × (m₁ : Memory) × (m₂ : Memory) × (mapping_page dst src type m' ≡ ok m₁)
      × (mapping_page dst src type m ≡ ok m₂)
      × ((i : ℕ) → m₁.page_table i ≡ m₂.page_table i)
unfolding unmapping_page mapping_page get_physical_addr
mapping_page-unmapping_page dst src type m a s t = (
  record m { page_table = set_at m.page_table (entry dst) 0 },
  rw a refl,
  rw (set_at_self m.page_table (entry dst) 0) refl,
  record m { page_table = set_at (set_at m.page_table (entry dst) 0) (entry dst) (src + type) },
  record m { page_table = set_at m.page_table (entry dst) (src + type) },
  rw (a, s, lt→ltb _ _ t) refl,
  rw (a, s, lt→ltb _ _ t) refl,
  λ i. twice (src + type) 0 (m.page_table i) (i == entry dst),
)
  where
    twice : (x y z : ℕ) (b : Bool) → (if b then x else (if b then y else z)) ≡ (if b then x else z)
    twice x y z true = refl
    twice x y z false = refl
