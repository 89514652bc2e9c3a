-- ===== src/Memory.antt =====
-- src/mem.c and inc/mem.h: the descriptors of the physical pages with their free list, and the
-- page table of the kernel's half of the addresses.
-- A `struct mem_desc_t` is the number of its page, and each field a function of that number.
-- `x & 0xfffff000` is `x - x % 4096`; `src | type` is a sum, since `mapping_page` asserts that the
-- two share no bit.
pub mod FreeList
pub mod Init
pub mod Table
pub mod Persisted
pub mod Fork
use Prim.Native.Nat.{bit_and, bit_or}
use x_os_tmp.Base.{
  ℕ, zero, suc, ◌+◌, ◌-◌, ◌*◌, ◌/◌, ◌%◌, ◌^◌, Bool, true, false, not, ◌&&◌, ◌==◌, ltb,
  if◌then◌else◌, Option, some, none, Run, ok, panic, out_of_fuel, ◌>>=◌, ◌>>◌, kassert, set_at, ℤ,
  pos, negsuc,
}
use x_os_tmp.Kernel.{Kernel, add32, sub32}
use x_os_tmp.Semaphore.{Call, returns, blocks, ksemaphore_init, ksemaphore_down, ksemaphore_up}

-- `KMEM_START`
abbrev pub kmem_start : ℕ
kmem_start = 0xc0000000

abbrev pub ushrt_max : ℕ
ushrt_max = 65535

abbrev pub mem_flags_p : ℕ
mem_flags_p = 0x01

abbrev pub mem_flags_k : ℕ
mem_flags_k = 0x02

abbrev pub mem_flags_l : ℕ
mem_flags_l = 0x04

abbrev pub mem_flags_t : ℕ
mem_flags_t = 0x10

-- The number of `mem_semaphore`.
abbrev pub mem_semaphore : ℕ
mem_semaphore = 0

-- What `void* point` holds: nothing, the next free descriptor, or the address of the page.
pub data Point : Type 0 where
  null : Point
  desc : ℕ → Point
  address : ℕ → Point

pub record Memory : Type 0 where
  pub kernel : Kernel
  -- the fields of `mem_descs[i]`
  pub active : ℕ → ℕ
  pub share : ℕ → ℕ
  pub flags : ℕ → ℕ
  pub unused : ℕ → ℕ
  pub point : ℕ → Point
  -- `free_mem_desc_head`
  pub free_head : Point
  pub page_table : ℕ → ℕ
  -- `persisted_mem_desc` and `persisted_pagemem_desc`
  pub end_of_kernel : ℕ
  pub capacity : ℕ
  pub cur_mem_pos : ℕ

-- `for(i = lo; i < lo + n; ++i) f[i] = g(i)`
pub fill {ℓ} : {A : Type ℓ} → ℕ → ℕ → (ℕ → A) → (ℕ → A) → ℕ → A
fill lo zero g f = f
fill lo (suc n) g f = fill (lo + 1) n g (set_at f lo (g lo))

-- The five fields of the descriptors from `lo` up to `hi`, which are in use for good.
reserve : ℕ → ℕ → ℕ → Memory → Memory
unfolding fill
reserve lo hi flags m = record m {
  active = fill lo (hi - lo) (λ i. ushrt_max) m.active;
  share = fill lo (hi - lo) (λ i. 1) m.share;
  flags = fill lo (hi - lo) (λ i. flags) m.flags;
  unused = fill lo (hi - lo) (λ i. 0) m.unused;
  point = fill lo (hi - lo) (λ i. null) m.point;
}

-- `mem_descs[i].point = mem_descs + i + 1` from `lo` up to `hi`.
link_free : ℕ → ℕ → Memory → Memory
unfolding fill
link_free lo hi m = record m { point = fill lo (hi - lo) (λ i. desc (i + 1)) m.point }

-- `_memset(mem_descs, 0, ...)`
abbrev clear_descs : Memory → Memory
clear_descs m = record m {
  active = λ i. 0;
  share = λ i. 0;
  flags = λ i. 0;
  unused = λ i. 0;
  point = λ i. null;
}

-- `hasUsed`
abbrev pub has_used : Memory → ℕ
has_used m = sub32 m.capacity kmem_start / 0x1000

-- `init_mem_desc` behind its `kassert`.
unfoldable pub init_descs : ℕ → Memory → Memory
unfolding reserve link_free
init_descs pagecount m =
    let pkl = bit_or (bit_or mem_flags_p mem_flags_k) mem_flags_l in
    let m₁ = link_free 0 160 (clear_descs m) in
    let m₂ = reserve 160 256 pkl m₁ in
    let m₃ = reserve 256 512 (bit_or pkl mem_flags_t) m₂ in
    let m₄ = reserve 512 (256 + has_used m) pkl m₃ in
    let m₅ = link_free (256 + has_used m) pagecount m₄ in
    let point = set_at m₅.point 159 (desc (256 + has_used m)) in
    record m₅ {
      point = set_at point (sub32 pagecount 1) null;
      flags = set_at m₅.flags 512 (bit_or (m₅.flags 512) mem_flags_t);
      free_head = desc 0;
      kernel =
          ksemaphore_init mem_semaphore (sub32 (sub32 (add32 160 pagecount) 256) (has_used m))
            m₅.kernel;
    }

unfoldable pub init_mem_desc : ℕ → Memory → Run Memory
unfolding init_descs
init_mem_desc pagecount m = do kassert (m.capacity % 4096 == 0); ok (init_descs pagecount m)

-- The page table entry of a virtual address.
abbrev pub entry : ℕ → ℕ
entry dst = sub32 dst kmem_start / 4096

unfoldable pub mapping_page : ℕ → ℕ → ℕ → Memory → Run Memory
mapping_page dst src type m = do
  kassert (dst % 4096 == 0 && src % 4096 == 0 && ltb type 8)
  ok (record m { page_table = set_at m.page_table (entry dst) (src + type) })

unfoldable pub unmapping_page : ℕ → Memory → Run Memory
unmapping_page dst m = do
  kassert (dst % 4096 == 0)
  ok (record m { page_table = set_at m.page_table (entry dst) 0 })

unfoldable pub get_physical_addr : ℕ → Memory → ℕ
get_physical_addr dst m = let e = m.page_table (entry dst) in e - e % 4096

-- The head of the free list becomes a page in use. The head of a well-formed list is no address.
unfoldable pub take_head : ℕ → ℕ → Memory → Run (ℕ × Memory)
take_head share flags m = elim m.free_head [
  | null ↦ panic
  | address a ↦ panic
  | desc x ↦ ok (
    x,
    record m {
      active = set_at m.active x ushrt_max;
      share = set_at m.share x share;
      flags = set_at m.flags x flags;
      unused = set_at m.unused x 0;
      free_head = m.point x;
      point = set_at m.point x null;
    },
  )
]

-- Built without NDEBUG, as the makefile does.
unfoldable pub getonefreepage_unblocking : ℕ → ℕ → Memory → Run (Option ℕ × Memory)
unfolding take_head
getonefreepage_unblocking share flags m = elim m.free_head [
  | null ↦ ok (none, m)
  | _ ↦ do
    (rs, k) ← ksemaphore_down mem_semaphore 1 (negsuc 0) m.kernel
    kassert (elim rs [ returns v ↦ elim v [ pos n ↦ n == 1 | negsuc n ↦ false ] | blocks ↦ false ])
    (x, m') ← take_head share flags (record m { kernel = k })
    ok (some x, m')
]

-- `none`: the caller blocks, and goes on at the `kassert` when it has been served.
unfoldable pub getonefreepage : ℕ → ℕ → Memory → Run (Option ℕ × Memory)
unfolding take_head
getonefreepage share flags m = do
  (call, k) ← ksemaphore_down mem_semaphore 1 (pos 0) m.kernel
  let m₁ = record m { kernel = k }
  elim call [
    | blocks ↦ ok (none, m₁)
    | returns v ↦ (do (x, m') ← take_head share flags m₁; ok (some x, m'))
  ]

unfoldable pub freeonepage : ℕ → ℕ → Memory → Run Memory
freeonepage fuel x m = do
  kassert (not (bit_and (m.flags x) mem_flags_p == 0))
  let m₁ = record m {
    flags = set_at m.flags x 0;
    point = set_at m.point x m.free_head;
    free_head = desc x;
  }
  k ← ksemaphore_up fuel mem_semaphore 1 m₁.kernel
  ok (record m₁ { kernel = k })

-- `while(p) { ++fc; p = p->point; }`
pub count_free : ℕ → ℕ → Point → Memory → Run ℕ
count_free zero fc p m = out_of_fuel
count_free (suc f) fc null m = ok fc
count_free (suc f) fc (desc x) m = count_free f (add32 fc 1) (m.point x) m
count_free (suc f) fc (address a) m = panic

unfoldable pub get_free_mem_size : ℕ → Memory → Run ℕ
unfolding count_free
get_free_mem_size fuel m = do
  fc ← count_free fuel 0 m.free_head m
  kassert (fc == m.kernel.surplus mem_semaphore)
  ok (fc * 4096 % 2 ^ 32)

-- `while(size--)` of `kgetpersistedpage`, `size` rounds.
pub map_pages : ℕ → Memory → Run Memory
map_pages zero m = ok m
map_pages (suc size) m = do
  let pos = sub32 m.cur_mem_pos 4096
  (got, m₁) ←
      getonefreepage_unblocking 1 (bit_or (bit_or mem_flags_p mem_flags_k) mem_flags_l)
        (record m { cur_mem_pos = pos })
  x ← elim got [ none ↦ panic | some x ↦ ok x ]
  m₂ ← mapping_page pos (x * 4096 % 2 ^ 32) 3 m₁
  map_pages size m₂

-- The result, and the length that the call of `_memset` is given: the loop leaves `size` at
-- 0xffffffff, because its last test decrements it once more.
unfoldable pub kgetpersistedpage : ℕ → Memory → Run (ℕ × ℕ × Memory)
unfolding map_pages
kgetpersistedpage size m = do
  m' ← map_pages size m
  ok (m'.cur_mem_pos, sub32 0 1 * 4096 % 2 ^ 32, m')

-- `do { ... } while(1)` of `kgetpersistedmem`; `mem_descs` is set before the first call.
unfoldable pub grow_until : ℕ → ℕ → Memory → Run Memory
grow_until zero size m = out_of_fuel
grow_until (suc f) size m =
    let grow = (do
      (got, m₁) ←
          getonefreepage_unblocking 1 (bit_or (bit_or mem_flags_p mem_flags_k) mem_flags_l) m
      x ← elim got [ none ↦ panic | some x ↦ ok x ]
      m₂ ← mapping_page m₁.capacity (x * 4096 % 2 ^ 32) 3 m₁
      grow_until f size (record m₂ { capacity = add32 m₂.capacity 4096 })) in
    if ltb (add32 m.end_of_kernel size) m.capacity
    then ok (record m { end_of_kernel = add32 m.end_of_kernel size })
    else grow

-- The address of the area, which `_memset` fills with `size` times 0.
unfoldable pub kgetpersistedmem : ℕ → ℕ → Memory → Run (ℕ × Memory)
unfolding grow_until
kgetpersistedmem fuel size m = do
  kassert (size % 4 == 0)
  m' ← grow_until fuel size m
  ok (m.end_of_kernel, m')

abbrev pub init_alloc_descs : Memory → Memory
init_alloc_descs m = record m { cur_mem_pos = 0xffea5000 }

-- `for(i = start_pos; i < 4096; ++i)`, `n` entries from `i` on; the register of the processor that
-- is loaded behind it is no part of the state.
clear_entries : ℕ → ℕ → (ℕ → ℕ) → ℕ → ℕ
clear_entries i zero table = table
clear_entries i (suc n) table = clear_entries (i + 1) n (set_at table i 0)

unfoldable pub clear_page_table : Memory → Memory
unfolding clear_entries
clear_page_table m =
    let start = sub32 m.capacity kmem_start / 2 ^ 12 in
    record m { page_table = clear_entries start (4096 - start) m.page_table }

-- `init_mem_module`, for the end of the kernel's image and the number of bytes of the machine; a
-- descriptor has 12 bytes, from `end_of_kernel` on.
unfoldable pub init_mem_module : ℕ → ℕ → Memory → Run Memory
unfolding clear_page_table
init_mem_module image_end memsize m = do
  let pagecount = memsize / 4096
  let end_of_kernel = add32 image_end (12 * pagecount % 2 ^ 32)
  let rounded = add32 end_of_kernel 4095
  kassert (ltb end_of_kernel (kmem_start + 0x01000000))
  m₁ ← init_mem_desc pagecount (
      clear_page_table
        (record m { end_of_kernel = end_of_kernel; capacity = rounded - rounded % 4096 }))
  ok (init_alloc_descs m₁)
