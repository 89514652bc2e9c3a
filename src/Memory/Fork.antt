-- ===== src/Memory/Fork.antt =====
-- `mem_fork` of src/mem.c: both processes share the pages of the old one, read-only.
use Prim.Native.Nat.{bit_or}
use x_os_tmp.Base.{
  ℕ, zero, suc, ◌+◌, ◌-◌, ◌*◌, ◌/◌, ◌%◌, ◌^◌, ◌≤◌, ◌<◌, ◌≡◌, ◌&&◌, ltb, leb, ok, Run, ◌>>=◌, ◌==◌,
  if◌then◌else◌, set_at, one,
}
use x_os_tmp.Kernel.{Kernel, lock_task, unlock_task}

-- `catalog_table_v` of the old and of the new process, and the fields of the descriptors that change.
pub record Fork : Type 0 where
  pub kernel : Kernel
  pub share : ℕ → ℕ
  pub flags : ℕ → ℕ
  pub src : ℕ → ℕ
  pub dst : ℕ → ℕ

-- `e & ~2`
abbrev pub read_only : ℕ → ℕ
read_only e = e - e / 2 % 2 * 2

-- The round for the entry i, with the lock taken. `MEM_FLAGS_S` is 0x20.
unfoldable pub share_entry : ℕ → Fork → Fork
share_entry i f =
    let e = read_only (f.src i) in
    let x = e / 2 ^ 12 in
    let f₁ = record f { src = set_at f.src i e; dst = set_at f.dst i e } in
    if e % 2 == 1
    then record f₁ {
      share = set_at f₁.share x ((f₁.share x + 1) % 2 ^ 16);
      flags = set_at f₁.flags x (bit_or (f₁.flags x) 0x20);
    }
    else f₁

-- `for(i = 0; i < 768; ++i)`, `n` rounds from i on.
unfoldable pub share_entries : ℕ → ℕ → Fork → Run Fork
unfolding share_entry
share_entries i zero f = ok f
share_entries i (suc n) f = do
  let f₁ = share_entry i f
  k ← unlock_task (lock_task f.kernel)
  share_entries (i + 1) n (record f₁ { kernel = k })

-- `mem_fork` behind its call of `get_one_page`, whose page is the new table.
unfoldable pub mem_fork : Fork → Run Fork
unfolding share_entries
mem_fork f =
    share_entries 0 768
      (record f { dst = λ i. if leb 768 i && ltb i 1024 then f.src i else f.dst i })

-- How many present entries of `n` from i on lead to the page x.
unfoldable pub uses : ℕ → ℕ → (ℕ → ℕ) → ℕ → ℕ
uses i zero table x = 0
uses i (suc n) table x =
    (if table i % 2 == 1 then one x (table i / 2 ^ 12) else 0) + uses (i + 1) n table x

-- The tables and the counts after the rounds.
pub record Shared (i n : ℕ) (f f' : Fork) : Type 0 where
  pub both :
      (j : ℕ)
      → i ≤ j
      → j < i + n
      → (f'.src j ≡ read_only (f.src j)) × (f'.dst j ≡ read_only (f.src j))
  pub below : (j : ℕ) → j < i → (f'.src j ≡ f.src j) × (f'.dst j ≡ f.dst j)
  pub behind : (j : ℕ) → i + n ≤ j → (f'.src j ≡ f.src j) × (f'.dst j ≡ f.dst j)
  pub counted : (x : ℕ) → f.share x < 2 ^ 16 → f'.share x ≡ (f.share x + uses i n f.src x) % 2 ^ 16
  pub locks : (p : ℕ) → f'.kernel.lock_count p ≡ f.kernel.lock_count p
