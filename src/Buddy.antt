-- ===== src/Buddy.antt =====
-- src/buddy.c and inc/buddy.h: blocks of 2^n pages for the kernel, in one list for each n.
pub mod Area
pub mod Blocks
pub mod Get
pub mod Links
pub mod Unlink
pub mod Pairs
pub mod Mates
pub mod Free
pub mod Init
use x_os_tmp.Base.{
  ℕ, zero, suc, ◌+◌, ◌-◌, ◌*◌, ◌/◌, ◌%◌, ◌^◌, ◌==◌, ◌||◌, not, ltb, leb, if◌then◌else◌, Option,
  none, some, Run, ok, panic, out_of_fuel, ◌>>=◌, ◌>>◌, kassert, set_at,
}
use Prim.Native.Nat.{bit_xor, bit_and, bit_or}
use x_os_tmp.Kernel.{sub32}

abbrev pub buddy_dep : ℕ
buddy_dep = 15

abbrev pub mem_start : ℕ
mem_start = 0xc0000000

-- `buddy_allocs`; a pointer into `list_start` of the level n is a position in it, and `none` is NULL.
pub record Buddy : Type 0 where
  pub map : ℕ → ℕ → ℕ
  pub next : ℕ → ℕ → Option ℕ
  pub prev : ℕ → ℕ → Option ℕ
  pub list_head : ℕ → Option ℕ

-- One entry of the level n.
abbrev pub set_in {ℓ} : {A : Type ℓ} → (ℕ → ℕ → A) → ℕ → ℕ → A → ℕ → ℕ → A
set_in f n p v = set_at f n (set_at (f n) p v)

-- `map[(pos >> 1) / 32] ^= 1 << ((pos >> 1) % 32)`
abbrev pub toggle : ℕ → ℕ → Buddy → Buddy
toggle n pos b =
    let w = pos / 2 / 32 in
    record b { map = set_in b.map n w (bit_xor (b.map n w) (2 ^ (pos / 2 % 32))) }

abbrev pub set_prev : ℕ → Option ℕ → Option ℕ → Buddy → Buddy
set_prev n none v b = b
set_prev n (some q) v b = record b { prev = set_in b.prev n q v }

abbrev pub set_next : ℕ → Option ℕ → Option ℕ → Buddy → Buddy
set_next n none v b = b
set_next n (some q) v b = record b { next = set_in b.next n q v }

-- The first block of the list is taken off.
abbrev pub pop : ℕ → ℕ → Buddy → Buddy
pop n pos b =
    set_prev n (b.next n pos) none (record b { list_head = set_at b.list_head n (b.next n pos) })

-- A block is put at the front of the list.
abbrev pub push : ℕ → ℕ → Buddy → Buddy
push n pos b =
    let b₁ = record b {
      next = set_in b.next n pos (b.list_head n);
      prev = set_in b.prev n pos none;
    } in
    let b₂ = set_prev n (b.list_head n) (some pos) b₁ in
    record b₂ { list_head = set_at b₂.list_head n (some pos) }

-- A block is taken out of the middle of the list; the tests are for NULL.
abbrev pub relink_next : Option ℕ → ℕ → ℕ → Buddy → Buddy
relink_next none n pos b = record b { list_head = set_at b.list_head n (b.next n pos) }
relink_next (some q) n pos b = record b { next = set_in b.next n q (b.next n pos) }

abbrev pub unlink_block : ℕ → ℕ → Buddy → Buddy
unlink_block n pos b =
    let b₁ = relink_next (b.prev n pos) n pos b in set_prev n (b₁.next n pos) (b₁.prev n pos) b₁

-- The address of a block, and the position of an address.
abbrev pub address_of : ℕ → ℕ → ℕ
address_of n pos = (pos * 2 ^ n * 4096 + mem_start) % 2 ^ 32

abbrev pub position_of : ℕ → ℕ → ℕ
position_of n address = sub32 address mem_start / 4096 / 2 ^ n

-- The second half of a block of the level above goes to the list of the level n.
abbrev pub split : ℕ → Option ℕ × Buddy → Option ℕ × Buddy
split n (none, b) = (none, b)
split n (some parent, b) =
    let pos = position_of n parent in (some parent, push n (pos + 1) (toggle n pos b))

-- The head of the list, or else what the level above gives.
abbrev pub take_first : ℕ → Option ℕ → Buddy → Option ℕ × Buddy → Option ℕ × Buddy
take_first n (some pos) b above = (some (address_of n pos), toggle n pos (pop n pos b))
take_first n none b above = split n above

-- `get_address_area`, for the level n with `f` levels from it on up to `BUDDY_DEP`.
unfoldable pub get_from : ℕ → ℕ → Buddy → Option ℕ × Buddy
get_from zero n b = (none, b)
get_from (suc f) n b = take_first n (b.list_head n) b (get_from f (n + 1) b)

unfoldable pub get_address_area : ℕ → Buddy → Option ℕ × Buddy
unfolding get_from
get_address_area n b = get_from (buddy_dep - n) n b

-- `free_address_area`, likewise; its two `kassert`s stand in every call.
unfoldable pub free_from : ℕ → ℕ → ℕ → Buddy → Run Buddy
free_from zero p n b = panic
free_from (suc f) p n b =
    let pos = position_of n p in
    let b₁ = toggle n pos b in
    let bit = bit_and (b₁.map n (pos / 2 / 32)) (2 ^ (pos / 2 % 32)) in
    let joined = free_from f p (n + 1) (unlink_block n (bit_xor pos 1) b₁) in
    if ltb p mem_start
    then panic
    else if not (bit == 0) || (n == buddy_dep - 1)
    then ok (push n pos b₁)
    else joined

unfoldable pub free_address_area : ℕ → ℕ → Buddy → Run Buddy
unfolding free_from
free_address_area p n b = free_from (buddy_dep - n) p n b

-- The list of the highest level, which the loops build: its entries 0 and 15 are then taken out.
abbrev pub top : ℕ
top = 14

abbrev pub lb_size : ℕ
lb_size = 16

unfoldable pub clear_heads : ℕ → (ℕ → Option ℕ) → ℕ → Option ℕ
clear_heads zero h = h
clear_heads (suc n) h = set_at (clear_heads n h) n none

unfoldable pub link_blocks : ℕ → Buddy → Buddy
link_blocks zero b = b
link_blocks (suc i) b =
    let b₁ = link_blocks i b in
    record b₁ {
      next = set_in b₁.next top i (some (i + 1));
      prev = set_in b₁.prev top i (some (i - 1));
    }

-- `init_buddy_module`, on the memory that `kgetpersistedmem` gives. The entry that `prev` of the
-- block 0 would name lies before the array; it is overwritten.
unfoldable pub init_buddy_module : Buddy → Buddy
unfolding clear_heads link_blocks
init_buddy_module b =
    let b₁ = link_blocks lb_size (record b { list_head = clear_heads buddy_dep b.list_head }) in
    let b₂ = record b₁ {
      prev = set_in b₁.prev top 0 none;
      next = set_in b₁.next top (lb_size - 1) none;
      map = set_in b₁.map top 0 (bit_or (b₁.map top 0) 1);
    } in
    let w = lb_size / 2 / 32 in
    record b₂ {
      map = set_in b₂.map top w (bit_or (b₂.map top w) (2 ^ (lb_size / 2 % 32 - 1)));
      list_head = set_at b₂.list_head top (some 1);
      prev = set_in b₂.prev top 1 none;
      next = set_in b₂.next top (lb_size - 2) none;
    }
