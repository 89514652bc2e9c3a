-- ===== src/Slab.antt =====
-- src/slab.c and inc/slab.h: objects of 16 to 128 bytes, cut out of pages, with one list of free
-- slots for each size.
-- A pointer is a number, and NULL is 0. The fields of a `struct slab_page_desc_t` and the link of a
-- `struct slab_list_node_t` are functions of its address; `page_start_pos(p)` is `p - p % 4096`.
pub mod Slots
pub mod Cut
use Prim.Native.Nat.{bit_or}
use x_os_tmp.Base.{
  ℕ, zero, suc, ◌+◌, ◌-◌, ◌*◌, ◌/◌, ◌%◌, ◌^◌, ◌==◌, ◌&&◌, not, Bool, ltb, leb, if◌then◌else◌,
  Option, none, some, Run, ok, panic, ◌>>=◌, ◌>>◌, kassert, set_at,
}
use x_os_tmp.Kernel.{add32, sub32}
use x_os_tmp.Memory.{mem_flags_p, mem_flags_k, mem_flags_l}
use x_os_tmp.Pages.{Pages, get_pages, free_pages}

pub record Slab : Type 0 where
  pub pages : Pages
  -- the fields of `struct slab_page_desc_t`, and `next` of `struct slab_list_node_t`
  pub alloc_count : ℕ → ℕ
  pub page_next : ℕ → ℕ
  pub page_pre : ℕ → ℕ
  pub slot_next : ℕ → ℕ
  -- the address of `_slab_page_descs`, and the fields of `slab_slot_descs[n]`
  pub page_descs : ℕ
  pub free_page_head : ℕ → ℕ
  pub free_slab_head : ℕ → ℕ
  pub page_count : ℕ → ℕ
  pub free_slab_count : ℕ → ℕ
  pub slab_capacity : ℕ → ℕ

-- `sizeof(struct slab_page_desc_t)`
abbrev pub desc_size : ℕ
desc_size = 12

abbrev pub page_start_pos : ℕ → ℕ
page_start_pos p = p - p % 4096

-- The round for the size number i, with the addresses of its two descriptors.
abbrev init_slot : ℕ → Slab → Slab
init_slot i s =
    let capacity = (4096 - desc_size) / ((i + 1) * 16) in
    let first = add32 s.page_descs (desc_size * i) in
    let last = add32 s.page_descs (desc_size * (i + 8)) in
    record s {
      slab_capacity = set_at s.slab_capacity i capacity;
      alloc_count = set_at (set_at s.alloc_count first capacity) last capacity;
      page_next = set_at (set_at s.page_next first last) last 0;
      page_pre = set_at (set_at s.page_pre first 0) last first;
      free_page_head = set_at s.free_page_head i first;
      free_slab_head = set_at s.free_slab_head i 0;
    }

-- `for(i = 0; i < n; ++i)`
init_slots : ℕ → Slab → Slab
init_slots zero s = s
init_slots (suc i) s = init_slot i (init_slots i s)

unfoldable pub init_slab_module : Slab → Slab
unfolding init_slots
init_slab_module s = init_slots 8 (record s {
  free_page_head = λ i. 0;
  free_slab_head = λ i. 0;
  page_count = λ i. 0;
  free_slab_count = λ i. 0;
  slab_capacity = λ i. 0;
})

-- The loop over the slots of a page, `n` of them from the address `head` on.
unfoldable pub cut_slots : ℕ → ℕ → ℕ → (ℕ → ℕ) → ℕ → ℕ
cut_slots zero head size next = next
cut_slots (suc n) head size next =
    cut_slots n (add32 head size) size (set_at next head (add32 head size))

-- The descriptor of a page is put behind the head of the pages of the size number n.
abbrev pub link_page : ℕ → ℕ → Slab → Slab
link_page n pdesc s =
    let head = s.free_page_head n in
    let next = set_at (set_at s.page_next pdesc (s.page_next head)) head pdesc in
    record s {
      page_next = next;
      page_pre = set_at (set_at s.page_pre pdesc head) (next pdesc) pdesc;
    }

-- What `tslab_malloc` does with a new page `pdesc`.
unfoldable pub add_page : ℕ → ℕ → ℕ → Slab → Run Slab
unfolding cut_slots
add_page n size pdesc s = do
  let slab = add32 pdesc desc_size
  let capacity = s.slab_capacity n
  let end = (slab + capacity * size) % 2 ^ 32
  let snode = sub32 end size
  kassert (page_start_pos end == pdesc)
  kassert (page_start_pos (add32 end size) == add32 pdesc 4096)
  let s₁ = link_page n pdesc (record s {
    alloc_count = set_at s.alloc_count pdesc 0;
    slot_next = set_at (cut_slots capacity slab size s.slot_next) snode 0;
    free_slab_head = set_at s.free_slab_head n slab;
  })
  let count = add32 (s.free_slab_count n) capacity
  kassert (count == capacity)
  ok (record s₁ {
    page_count = set_at s₁.page_count n (add32 (s₁.page_count n) 1);
    free_slab_count = set_at s₁.free_slab_count n count;
  })

-- The first slot of the list.
unfoldable pub take_slot : ℕ → Slab → Run (ℕ × Slab)
take_slot n s = do
  let node = s.free_slab_head n
  kassert (ltb 0 (s.free_slab_count n))
  let pdesc = page_start_pos node
  ok (
    node,
    record s {
      free_slab_head = set_at s.free_slab_head n (s.slot_next node);
      free_slab_count = set_at s.free_slab_count n (s.free_slab_count n - 1);
      alloc_count = set_at s.alloc_count pdesc (add32 (s.alloc_count pdesc) 1);
    },
  )

-- `size % 16 == 0 && size > 0 && size <= 128`
abbrev pub fits : ℕ → Bool
fits size = size % 16 == 0 && ltb 0 size && leb size 128

-- `none`: the caller blocks in `get_pages`.
unfoldable pub tslab_malloc : ℕ → Slab → Run (Option ℕ × Slab)
unfolding add_page take_slot
tslab_malloc size s = do
  kassert (fits size)
  let n = size / 16 - 1
  let refill = (do
    kassert (s.free_slab_count n == 0)
    (got, pages) ← get_pages 0 1 (bit_or (bit_or mem_flags_p mem_flags_k) mem_flags_l) s.pages
    elim got [
      | none ↦ ok (none, record s { pages = pages })
      | some pdesc ↦ (do
        s₁ ← add_page n size pdesc (record s { pages = pages })
        (node, s₂) ← take_slot n s₁
        ok (some node, s₂))
    ])
  let first = (do (node, s₁) ← take_slot n s; ok (some node, s₁))
  if s.free_slab_head n == 0 then refill else first

-- The page of a size number n without an object is given back.
unfoldable pub drop_page : ℕ → ℕ → ℕ → Slab → Run Slab
drop_page fuel n pdesc s = do
  let next = set_at s.page_next (s.page_pre pdesc) (s.page_next pdesc)
  let pre = set_at s.page_pre (next pdesc) (s.page_pre pdesc)
  pages ← free_pages fuel pdesc 0 s.pages
  kassert (ltb 0 (s.page_count n))
  ok (record s {
    page_next = next;
    page_pre = pre;
    pages = pages;
    page_count = set_at s.page_count n (s.page_count n - 1);
  })

unfoldable pub tslab_free : ℕ → ℕ → ℕ → Slab → Run Slab
unfolding drop_page
tslab_free fuel mem size s = do
  kassert (fits size)
  let n = size / 16 - 1
  let pdesc = page_start_pos mem
  let s₁ = record s {
    slot_next = set_at s.slot_next mem (s.free_slab_head n);
    free_slab_head = set_at s.free_slab_head n mem;
  }
  kassert (not (s.alloc_count pdesc == 0))
  let left = s.alloc_count pdesc - 1
  let s₂ = record s₁ { alloc_count = set_at s.alloc_count pdesc left }
  if left == 0 then drop_page fuel n pdesc s₂ else ok s₂

-- The three numbers of the line that `print_slab_status` prints.
unfoldable pub print_slab_status : ℕ → Slab → Run (ℕ × ℕ × ℕ)
print_slab_status size s = do
  kassert (fits size)
  let n = size / 16 - 1
  ok (s.page_count n, s.free_slab_count n, s.slab_capacity n)
