-- ===== src/Vfs/Fds.antt =====
-- The table of file descriptors of src/vfs.c: its growth, new descriptors, and its copy for a fork.
-- The tables of a process are functions of the index, an address is a number with 0 for NULL, and
-- what stands at a table of NULL is the memory at the address 0. A `none` is a caller that blocks
-- in `get_pages`.
use Prim.Native.Nat.{bit_or}
use x_os_tmp.Base.{
  ℕ, zero, suc, ◌+◌, ◌-◌, ◌*◌, ◌/◌, ◌%◌, ◌^◌, ◌==◌, ltb, leb, if◌then◌else◌, Option, none, some,
  Run, ok, panic, ℤ, out_of_fuel, ◌>>=◌, set_at, pos, negsuc,
}
use x_os_tmp.Kernel.{sub32}
use x_os_tmp.LevelBitmap.{
  LevelBitmap, level_bitmap_bit_set, level_bitmap_bit_clear, level_bitmap_get_min, level_bitmap_cpy,
}
use x_os_tmp.Memory.{mem_flags_p, mem_flags_k}
use x_os_tmp.Pages.{Pages, get_pages, free_pages}
use x_os_tmp.Vfs.{FdStruct}

-- `INNER_FD_COUNT`
abbrev pub inner_fd_count : ℕ
inner_fd_count = 8

-- `struct fd_info_t`, with the content of `fd_append` in `appended`.
pub record FdTable : Type 0 where
  pub fd_pagesize : ℕ
  pub fds : ℕ → FdStruct
  pub fd_append : ℕ
  pub appended : ℕ → FdStruct
  pub fd_size : ℕ
  pub fd_capacity : ℕ
  pub level_bitmap : LevelBitmap

-- `struct fd_append_info_t`
pub record Append : Type 0 where
  pub fd_pagesize : ℕ
  pub fd_append : ℕ
  pub appended : ℕ → FdStruct
  pub fd_capacity : ℕ
  pub level_bitmap : LevelBitmap

-- The pages, and `open_count` of each inode.
pub record Files : Type 0 where
  pub pages : Pages
  pub open_count : ℕ → ℕ

abbrev pub blank : FdStruct
blank = record { inode = none; auth = 0 }

unfoldable pub vfs_estimate_capacity : ℕ → ℕ
vfs_estimate_capacity pagesize =
    sub32 (4096 * 2 ^ (pagesize + 1) % 2 ^ 32) 20 * 31 % 2 ^ 32 / (31 * 8 + 4)

-- The words behind the table are those of the bitmap; `get_pages` fills both with 0.
unfoldable pub fa_alloc_fd_info : ℕ → Files → Run (Option Append × Files)
unfolding vfs_estimate_capacity
fa_alloc_fd_info pagesize f = do
  (got, pages) ← get_pages pagesize 1 (bit_or mem_flags_p mem_flags_k) f.pages
  let f₁ = record f { pages = pages }
  elim got [
    | none ↦ ok (none, f₁)
    | some newpages ↦ ok (
      some (record {
        fd_pagesize = pagesize % 2 ^ 16;
        fd_append = newpages;
        appended = λ i. blank;
        fd_capacity = vfs_estimate_capacity pagesize;
        level_bitmap = record { bitmaps = λ i. 0; max_level = 4 };
      }),
      f₁,
    )
  ]

-- `while(maxtmp >>= 5)`: how often; 7 rounds for 32 bits.
unfoldable pub shifts : ℕ → ℕ → ℕ
shifts zero maxtmp = 0
shifts (suc f) maxtmp =
    let rest = shifts f (maxtmp / 32) in if maxtmp / 32 == 0 then 0 else 1 + rest

-- The pointer to the words of the bitmap moves, so that they are read from another place on.
unfoldable pub fa_cpy_fd_info : Append → FdTable → Run Append
unfolding shifts
fa_cpy_fd_info dst src = do
  map ← level_bitmap_cpy dst.level_bitmap src.level_bitmap (src.fd_capacity + 1)
  let start = 4 - shifts 7 dst.fd_capacity
  ok (record dst {
    appended = λ i. if ltb i src.fd_capacity then src.appended i else dst.appended i;
    level_bitmap = record { bitmaps = λ i. map.bitmaps (i + start); max_level = 0 };
  })

unfoldable pub fa_free_fd_info : ℕ → FdTable → Files → Run Files
fa_free_fd_info fuel t f = do
  pages ← free_pages fuel t.fd_append t.fd_pagesize f.pages
  ok (record f { pages = pages })

-- The `_memset` ends 4 bytes before the end of the structure, which are those of `max_level`.
-- The words behind `innerbitmaps` are those of the pointer and of what follows it.
unfoldable pub init_fd_info : FdTable → FdTable
init_fd_info t = record {
  fd_pagesize = 0;
  fds = λ i. blank;
  fd_append = 0;
  appended = t.appended;
  fd_size = 0;
  fd_capacity = inner_fd_count;
  level_bitmap = record {
    bitmaps = set_at t.level_bitmap.bitmaps 0 (2 ^ inner_fd_count - 1);
    max_level = t.level_bitmap.max_level;
  };
}

unfoldable pub release_fd_info : ℕ → FdTable → Files → Run Files
release_fd_info fuel t f = do
  pages ← free_pages fuel t.fd_append t.fd_pagesize f.pages
  ok (record f { pages = pages })

-- A table of `pagesize` takes the place of the old one.
unfoldable pub grow_table : ℕ → ℕ → FdTable → Files → Run (Option FdTable × Files)
unfolding fa_alloc_fd_info fa_cpy_fd_info fa_free_fd_info
grow_table fuel pagesize t f = do
  (got, f₁) ← fa_alloc_fd_info pagesize f
  elim got [
    | none ↦ ok (none, f₁)
    | some fda ↦ (do
      info ← fa_cpy_fd_info fda t
      let freed = fa_free_fd_info fuel t f₁
      f₂ ← (if t.fd_append == 0 then ok f₁ else freed)
      ok (
        some (record t {
          fd_pagesize = info.fd_pagesize;
          fd_append = info.fd_append;
          appended = info.appended;
          fd_capacity = info.fd_capacity;
          level_bitmap = info.level_bitmap;
        }),
        f₂,
      ))
  ]

-- The descriptor is taken out of the bitmap.
abbrev take_fd : ℕ → FdTable → Files → Run (Option ℕ × FdTable × Files)
take_fd fd t f = do
  (_, map) ← level_bitmap_bit_clear fd t.level_bitmap
  ok (some fd, record t { level_bitmap = map }, f)

-- The parameter is `_bsf`.
unfoldable pub fd_alloc : (ℕ → ℕ) → ℕ → FdTable → Files → Run (Option ℕ × FdTable × Files)
unfolding grow_table
fd_alloc bsf fuel t f = do
  let grown = grow_table fuel (if t.fd_append == 0 then 0 else t.fd_pagesize + 1) t f
  let next = (do
    (got, f₁) ← (if leb t.fd_capacity t.fd_size then grown else ok (some t, f))
    elim got [
      | none ↦ ok (none, t, f₁)
      | some t₁ ↦ take_fd t₁.fd_size (record t₁ { fd_size = t₁.fd_size + 1 }) f₁
    ])
  elim (level_bitmap_get_min bsf t.level_bitmap) [ pos fd ↦ take_fd fd t f | negsuc n ↦ next ]

-- `while(fd >= _vfs_estimate_capacity(test_page)) ++test_page;`
unfoldable pub page_for : ℕ → ℕ → ℕ → Run ℕ
unfolding vfs_estimate_capacity
page_for zero fd test_page = out_of_fuel
page_for (suc f) fd test_page =
    let rest = page_for f fd (test_page + 1) in
    if leb (vfs_estimate_capacity test_page) fd then rest else ok test_page

-- `for(; fd > fd_size; ++fd_size)`, `n` rounds.
unfoldable pub skip_to : ℕ → FdTable → FdTable
skip_to zero t = t
skip_to (suc n) t = skip_to n (record t {
  level_bitmap = (level_bitmap_bit_set t.fd_size t.level_bitmap).1;
  fd_size = t.fd_size + 1;
})

-- `vfs_bind_fd` behind the growth of the table.
unfoldable pub bind_in : ℕ → ℕ → ℕ → FdTable → Files → Run (FdTable × Files)
unfolding skip_to
bind_in fd auth inode t f = do
  let t₁ = skip_to (fd - t.fd_size) t
  (_, map) ← level_bitmap_bit_clear t₁.fd_size t₁.level_bitmap
  let t₂ = record t₁ { level_bitmap = map; fd_size = t₁.fd_size + 1 }
  let entry : FdStruct = record { inode = some inode; auth = auth }
  let t₃ =
      if ltb fd inner_fd_count
      then record t₂ { fds = set_at t₂.fds fd entry }
      else record t₂ { appended = set_at t₂.appended (fd - inner_fd_count) entry }
  ok (t₃, record f { open_count = set_at f.open_count inode ((f.open_count inode + 1) % 2 ^ 32) })

-- A negative descriptor leads to a place in front of `fds`.
unfoldable pub vfs_bind_fd : ℕ → ℤ → ℕ → ℕ → FdTable → Files → Run (Option FdTable × Files)
unfolding grow_table page_for bind_in
vfs_bind_fd fuel (negsuc n) auth inode t f = panic
vfs_bind_fd fuel (pos fd) auth inode t f = do
  let grown = (do
    test_page ← page_for fuel fd (if t.fd_append == 0 then 0 else t.fd_pagesize + 1)
    grow_table fuel test_page t f)
  (got, f₁) ← (if leb t.fd_capacity fd then grown else ok (some t, f))
  elim got [
    | none ↦ ok (none, f₁)
    | some t₁ ↦ (do (t₂, f₂) ← bind_in fd auth inode t₁ f₁; ok (some t₂, f₂))
  ]

-- `VFS_FDAUTH_CLOSEONFORK`
abbrev pub closes_on_fork : ℕ → ℕ
closes_on_fork auth = auth / 16 % 2

-- The rounds for `n` descriptors from i on, whose entries `entries` gives.
unfoldable pub fork_from :
    ℕ → (ℕ → FdStruct) → ℕ → ℕ → FdTable → Files → Run (Option FdTable × Files)
unfolding vfs_bind_fd
fork_from fuel entries i zero dst f = ok (some dst, f)
fork_from fuel entries i (suc n) dst f = do
  let bound = λ (inode : ℕ). vfs_bind_fd fuel (pos i) (entries i).auth inode dst f
  let kept = ok (some dst, f)
  (got, f₁) ← elim (entries i).inode [
    | none ↦ kept
    | some inode ↦ if closes_on_fork (entries i).auth == 0 then bound inode else kept
  ]
  elim got [ none ↦ ok (none, f₁) | some dst₁ ↦ fork_from fuel entries (i + 1) n dst₁ f₁ ]

-- The table of the new process, from that of the old one.
unfoldable pub fd_fork : ℕ → FdTable → FdTable → Files → Run (Option FdTable × Files)
unfolding init_fd_info fork_from
fd_fork fuel dst src f = do
  let inner = if ltb inner_fd_count src.fd_size then inner_fd_count else src.fd_size
  (got, f₁) ← fork_from fuel src.fds 0 inner (init_fd_info dst) f
  elim got [
    | none ↦ ok (none, f₁)
    | some dst₁ ↦
        fork_from fuel (λ i. src.appended (i - inner_fd_count)) inner_fd_count
          (src.fd_size - inner_fd_count) dst₁ f₁
  ]
