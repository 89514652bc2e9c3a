-- ===== src/Paging.antt =====
-- The page faults of src/mem.c, and src/exec.c: copies on the first write, and pages that are
-- filled on the first access.
-- The content of a page is its 1024 words, by the number of the page. An address of the kernel's
-- half is looked up in the page table of Memory, and one of the user's half in the tables of the
-- current process, which are such pages. The registers of the processor are no part of the state,
-- and cr2, the address of the fault, is an argument.
-- A page is aligned and an entry that gets a bit lacks it, so that `|` with them is a sum.
pub mod Lack
use Prim.Native.Nat.{bit_or, bit_and}
use x_os_tmp.Base.{
  ℕ, zero, suc, ◌+◌, ◌-◌, ◌*◌, ◌/◌, ◌%◌, ◌^◌, ◌==◌, ◌&&◌, not, ltb, leb, if◌then◌else◌, Option,
  none, some, Run, ok, panic, ◌>>=◌, ◌>>◌, kassert, set_at,
}
use x_os_tmp.Kernel.{Kernel, add32, sub32, lock_task, unlock_task}
use x_os_tmp.Buddy.{set_in, get_address_area, free_address_area}
use x_os_tmp.Memory.{
  Memory, Point, null, desc, address, kmem_start, mem_flags_p, mem_flags_k, mem_flags_t,
  getonefreepage, mapping_page, unmapping_page, get_physical_addr,
}
use x_os_tmp.Memory.Fork.{read_only}
use x_os_tmp.Pages.{Pages, number, locked, get_one_page}

pub record Paging : Type 0 where
  pub pages : Pages
  -- the content of the pages
  pub words : ℕ → ℕ → ℕ
  -- `cur_process->catalog_table_v`
  pub catalog : ℕ
  -- the address `_end`
  pub image_end : ℕ

abbrev pub mem_flags_s : ℕ
mem_flags_s = 0x20

-- The page behind an address of the kernel.
abbrev pub kernel_page : ℕ → Paging → ℕ
kernel_page v s = get_physical_addr v s.pages.memory / 4096

-- `v[i]` for the address v of a table.
unfoldable pub load_word : ℕ → ℕ → Paging → ℕ
load_word v i s = s.words (kernel_page v s) i

unfoldable pub store_word : ℕ → ℕ → ℕ → Paging → Paging
store_word v i e s = record s { words = set_in s.words (kernel_page v s) i e }

-- `cr2 >> 22` and `(cr2 >> 12) & 0x3ff`
abbrev pub catalog_index : ℕ → ℕ
catalog_index a = a / 2 ^ 22

abbrev pub table_index : ℕ → ℕ
table_index a = a / 2 ^ 12 % 2 ^ 10

-- The page behind an address of the user's half.
unfoldable pub user_page : ℕ → Paging → ℕ
unfolding load_word
user_page a s = s.words (load_word s.catalog (catalog_index a) s / 2 ^ 12) (table_index a) / 2 ^ 12

-- `_memcpy` of a whole page.
abbrev pub copy_page : ℕ → ℕ → Paging → Paging
copy_page dst src s = record s { words = set_at s.words dst (s.words src) }

abbrev pub with_memory : Memory → Paging → Paging
with_memory m s = record s { pages = record s.pages { memory = m } }

abbrev pub with_kernel : Kernel → Paging → Paging
with_kernel k s = with_memory (record s.pages.memory { kernel = k }) s

abbrev pub locked_paging : Paging → Paging
locked_paging s = with_kernel (lock_task s.pages.memory.kernel) s

abbrev pub set_share : ℕ → ℕ → Paging → Paging
set_share x v s = let m = s.pages.memory in with_memory (record m { share = set_at m.share x v }) s

abbrev pub set_flags : ℕ → ℕ → Paging → Paging
set_flags x v s = let m = s.pages.memory in with_memory (record m { flags = set_at m.flags x v }) s

-- `flags & ~MEM_FLAGS_S`
abbrev pub unshared : ℕ → ℕ
unshared flags = flags - flags / 32 % 2 * 32

abbrev pub has_s : ℕ → Paging → Run (Unit {0})
has_s x s = kassert (not (bit_and (s.pages.memory.flags x) mem_flags_s == 0))

-- A descriptor in use points to the address of its page or nowhere; the processor faults there.
abbrev pub address_in : Point → Run ℕ
address_in (address a) = ok a
address_in null = panic
address_in (desc x) = panic

-- The round for the entry i of a table that is copied.
unfoldable pub copy_entry : ℕ → ℕ → ℕ → Paging → Paging
unfolding load_word store_word
copy_entry old new i s =
    let e = load_word old i s in
    let s₁ = store_word new i (read_only e) s in
    let x = load_word new i s₁ / 2 ^ 12 in
    let m = s₁.pages.memory in
    let shared =
      set_flags x (bit_or (m.flags x) mem_flags_s) (set_share x ((m.share x + 1) % 2 ^ 16) s₁) in
    if load_word old i s₁ % 2 == 1 then shared else s₁

-- `for(i = 0; i < 1024; ++i)`, `n` rounds from i on.
unfoldable pub copy_entries : ℕ → ℕ → ℕ → ℕ → Paging → Paging
unfolding copy_entry
copy_entries old new i zero s = s
copy_entries old new i (suc n) s = copy_entries old new (i + 1) n (copy_entry old new i s)

-- The loop that takes the bit for writing from the entries of a table.
unfoldable pub protect_entries : ℕ → ℕ → ℕ → Paging → Paging
unfolding load_word store_word
protect_entries v i zero s = s
protect_entries v i (suc n) s =
    protect_entries v (i + 1) n (store_word v i (read_only (load_word v i s)) s)

-- `get_one_page`, whose page is filled with a word.
unfoldable pub get_filled_page : ℕ → ℕ → ℕ → Paging → Run (Option (ℕ × ℕ) × Paging)
get_filled_page word share flags s = do
  (got, pages) ← get_one_page share flags s.pages
  elim got [
    | none ↦ ok (none, record s { pages = pages })
    | some (p, physical_addr) ↦ ok (
      some (p, physical_addr),
      record s { pages = pages; words = set_at s.words (physical_addr / 4096) (λ i. word) },
    )
  ]

abbrev table_flags : ℕ
table_flags = bit_or (bit_or mem_flags_p mem_flags_k) mem_flags_t

-- The page table of the address cr2 becomes one of the current process alone; `none` is a caller
-- that blocks for a page.
unfoldable pub own_table : ℕ → Paging → Run (Option ℕ × Paging)
own_table cr2 s = do
  let i = catalog_index cr2
  let e = load_word s.catalog i s
  let x = e / 2 ^ 12
  let m = s.pages.memory
  let copied = (do
    (got, s₁) ← get_filled_page 0 1 table_flags s
    elim got [
      | none ↦ ok (none, s₁)
      | some (table, physical_addr) ↦ (do
        old ← address_in (s₁.pages.memory.point x)
        let s₂ = copy_entries old table 0 1024 s₁
        ok (some table, store_word s₂.catalog i (physical_addr + 7) s₂))
    ])
  let kept = (do
    let s₁ = store_word s.catalog i (e + 2) s
    table ← address_in (m.point x)
    let s₂ = protect_entries table 0 1024 s₁
    ok (some table, set_flags x (unshared (m.flags x)) s₂))
  let shared = (do
    has_s x s
    kassert (not (bit_and (m.flags x) mem_flags_k == 0))
    _ ← address_in (m.point x)
    kassert (leb 1 (m.share x))
    if ltb 1 (m.share x) then copied else kept)
  let mine = (do table ← address_in (m.point x); ok (some table, s))
  if e / 2 % 2 == 0 then shared else mine

-- The entry `e` of the table leads to a page that others have, too: the current process gets a
-- copy. `--desc->share` is of the inner `desc`, the new page.
unfoldable pub copy_shared : ℕ → ℕ → ℕ → Paging → Run (Option (Unit {0}) × Paging)
copy_shared cr2 table e s = do
  let (area, buddy) = get_address_area 0 s.pages.buddy
  let p = number area
  m₁ ← mapping_page p (e - e % 2 ^ 12) 7 s.pages.memory
  (got, m₂) ← getonefreepage 1 mem_flags_p m₁
  let s₁ = record s { pages = record { memory = m₂; buddy = buddy } }
  elim got [
    | none ↦ ok (none, s₁)
    | some x ↦ (do
      let s₂ = store_word table (table_index cr2) (x * 4096 % 2 ^ 32 + 7) s₁
      let s₃ = copy_page (user_page cr2 s₂) (kernel_page p s₂) s₂
      let s₄ = set_share x ((s₃.pages.memory.share x + (2 ^ 16 - 1)) % 2 ^ 16) s₃
      m₃ ← unmapping_page p s₄.pages.memory
      b ← free_address_area p 0 buddy
      ok (some tt, record s₄ { pages = record { memory = m₃; buddy = b } }))
  ]

unfoldable pub process_cow : ℕ → Paging → Run (Option (Unit {0}) × Paging)
process_cow cr2 s = do
  kassert (load_word s.catalog (catalog_index cr2) s % 2 == 1)
  (got, s₁) ← own_table cr2 (locked_paging s)
  elim got [
    | none ↦ ok (none, s₁)
    | some table ↦ (do
      k ← unlock_task s₁.pages.memory.kernel
      let i = table_index cr2
      kassert (load_word table i (with_kernel k s₁) / 2 % 2 == 0)
      let s₂ = locked_paging (with_kernel k s₁)
      let e = load_word table i s₂
      let x = e / 2 ^ 12
      has_s x s₂
      kassert (leb 1 (s₂.pages.memory.share x))
      let alone = set_flags x (unshared (s₂.pages.memory.flags x)) (store_word table i (e + 2) s₂)
      let copied = copy_shared cr2 table e s₂
      (done, s₃) ← (if ltb 1 (s₂.pages.memory.share x) then copied else ok (some tt, alone))
      elim done [
        | none ↦ ok (none, s₃)
        | some _ ↦ (do k' ← unlock_task s₃.pages.memory.kernel; ok (some tt, with_kernel k' s₃))
      ])
  ]

-- The page that `load_program` copies from: an address below KMEM_START is one of the user's half,
-- where a fault within the fault fails the assertion that one lock is held.
unfoldable pub image_page : ℕ → Paging → Run ℕ
unfolding load_word user_page
image_page src s =
    let e = load_word s.catalog (catalog_index src) s in
    if ltb src kmem_start
    then (do
      kassert (e % 2 == 1)
      kassert (s.words (e / 2 ^ 12) (table_index src) % 2 == 1)
      ok (user_page src s))
    else ok (kernel_page src s)

-- The result of `load_program`, on a page of the current process.
unfoldable pub load_program : ℕ → Paging → Run (ℕ × Paging)
unfolding user_page image_page
load_program target s = do
  let src = add32 target 0xc0000000
  let copied = (do
    kassert (ltb src s.image_end)
    from ← image_page src s
    ok (0, copy_page (user_page target s) from s))
  if ltb 0xa0000000 target && ltb target 0xc0000000 then ok (0, s) else copied

-- The page table of the address cr2, which is a new one when there is none.
unfoldable pub table_for : ℕ → Paging → Run (Option ℕ × Paging)
table_for cr2 s = do
  let i = catalog_index cr2
  let e = load_word s.catalog i s
  let new = (do
    kassert (bit_and e 0x67 == 0x06)
    (got, s₁) ← get_filled_page 0x06060606 1 table_flags s
    elim got [
      | none ↦ ok (none, s₁)
      | some (table, physical_addr) ↦
          ok (some table, store_word s₁.catalog i (physical_addr + 7) s₁)
    ])
  let old = (do table ← address_in (s.pages.memory.point (e / 2 ^ 12)); ok (some table, s))
  if e % 2 == 0 then new else old

-- The page x becomes that of the address cr2, with the lock taken.
unfoldable pub place_page : ℕ → ℕ → ℕ → Paging → Run (Option (Unit {0}) × Paging)
place_page cr2 table x s = do
  (ret, s₁) ←
      load_program (cr2 - cr2 % 2 ^ 12)
        (store_word table (table_index cr2) (x * 4096 % 2 ^ 32 + 7) s)
  k ← unlock_task s₁.pages.memory.kernel
  kassert (ret == 0)
  ok (some tt, with_kernel k s₁)

-- `process_lack_page` behind its page table.
unfoldable pub fill_page : ℕ → ℕ → Paging → Run (Option (Unit {0}) × Paging)
fill_page cr2 table s = do
  let m = locked s.pages.memory
  kassert (m.kernel.lock_count m.kernel.cur_process == 1)
  (page, m₁) ← getonefreepage 1 mem_flags_p m
  elim page [
    | none ↦ ok (none, with_memory m₁ s)
    | some x ↦ place_page cr2 table x (with_memory m₁ s)
  ]

-- `process_lack_page`, for the code of the error that the processor gives.
unfoldable pub process_lack_page : ℕ → ℕ → Paging → Run (Option (Unit {0}) × Paging)
process_lack_page e_code cr2 s = do
  let lacking = (do
    kassert (ltb cr2 kmem_start)
    (got, s₁) ← table_for cr2 s
    elim got [ none ↦ ok (none, s₁) | some table ↦ fill_page cr2 table s₁ ])
  if e_code % 2 == 1 then process_cow cr2 s else lacking

-- The entries of the user's half in `init_paging_module`, `n` of them from i on.
clear_catalog : ℕ → ℕ → Paging → Paging
unfolding store_word
clear_catalog i zero s = s
clear_catalog i (suc n) s = clear_catalog (i + 1) n (store_word s.catalog i 0x06 s)

-- Its descriptor of the trap 14 is set up by `setup_trap_desc`.
unfoldable pub init_paging_module : Paging → Paging
unfolding clear_catalog
init_paging_module s = clear_catalog 0 768 s
