-- ===== src/Pages.antt =====
-- `get_pages`, `free_pages` and `get_one_page` of src/mem.c: addresses of the buddy allocator, with
-- free pages mapped there.
-- The content of the pages is no part of the state, so that the calls of `_memset` are left out.
pub mod One
pub mod Area
use x_os_tmp.Base.{
  ℕ, zero, suc, ◌+◌, ◌*◌, ◌/◌, ◌%◌, ◌^◌, Option, some, none, Run, ok, ◌>>=◌, set_at,
}
use x_os_tmp.Kernel.{Kernel, add32, lock_task, unlock_task}
use x_os_tmp.Buddy.{Buddy, get_address_area, free_address_area}
use x_os_tmp.Memory.{
  Memory, address, getonefreepage, mapping_page, unmapping_page, get_physical_addr, freeonepage,
}

pub record Pages : Type 0 where
  pub memory : Memory
  pub buddy : Buddy

-- A pointer as a number: NULL is 0.
abbrev pub number : Option ℕ → ℕ
number none = 0
number (some a) = a

abbrev pub locked : Memory → Memory
locked m = record m { kernel = lock_task m.kernel }

-- The address and the physical address of a page. `none`: the caller blocks in `getonefreepage`,
-- with its lock taken.
unfoldable pub get_one_page : ℕ → ℕ → Pages → Run (Option (ℕ × ℕ) × Pages)
get_one_page share flags s = do
  let m₀ = locked s.memory
  let r = get_address_area 0 s.buddy
  let cp = number r.0
  (got, m₁) ← getonefreepage share flags m₀
  elim got [
    | none ↦ ok (none, record s { memory = m₁; buddy = r.1 })
    | some x ↦ (do
      let physical_addr = x * 4096 % 2 ^ 32
      m₂ ← mapping_page cp physical_addr 7 m₁
      k ← unlock_task m₂.kernel
      ok (
        some (cp, physical_addr),
        record s {
          memory = record m₂ { kernel = k; point = set_at m₂.point x (address cp) };
          buddy = r.1;
        },
      ))
  ]

-- `for(i = 0; i < n; ++i)` of `get_pages`; `none` as above.
unfoldable pub map_area : ℕ → ℕ → ℕ → ℕ → Memory → Run (Option ℕ × Memory)
map_area zero share flags cp m = ok (some cp, m)
map_area (suc n) share flags cp m = do
  (got, m₁) ← getonefreepage share flags m
  elim got [
    | none ↦ ok (none, m₁)
    | some x ↦ (do
      m₂ ← mapping_page cp (x * 4096 % 2 ^ 32) 7 m₁
      map_area n share flags (add32 cp 4096) (record m₂ { point = set_at m₂.point x (address cp) }))
  ]

unfoldable pub get_pages : ℕ → ℕ → ℕ → Pages → Run (Option ℕ × Pages)
unfolding map_area
get_pages n share flags s = do
  let r = get_address_area n s.buddy
  (got, m) ← map_area (2 ^ n) share flags (number r.0) (locked s.memory)
  elim got [
    | none ↦ ok (none, record s { memory = m; buddy = r.1 })
    | some _ ↦ (do
      k ← unlock_task m.kernel
      ok (some (number r.0), record s { memory = record m { kernel = k }; buddy = r.1 }))
  ]

-- `for(i = 0; i < n; ++i)` of `free_pages`.
unfoldable pub unmap_area : ℕ → ℕ → ℕ → Memory → Run Memory
unmap_area fuel zero cp m = ok m
unmap_area fuel (suc n) cp m = do
  let x = get_physical_addr cp m / 4096
  m₁ ← unmapping_page cp m
  m₂ ← freeonepage fuel x m₁
  unmap_area fuel n (add32 cp 4096) m₂

-- The register of the processor that `flush_page_table` loads is no part of the state.
unfoldable pub free_pages : ℕ → ℕ → ℕ → Pages → Run Pages
unfolding unmap_area
free_pages fuel p n s = do
  m ← unmap_area fuel (2 ^ n) p (locked s.memory)
  b ← free_address_area p n s.buddy
  k ← unlock_task m.kernel
  ok (record s { memory = record m { kernel = k }; buddy = b })
