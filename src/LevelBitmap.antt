-- ===== src/LevelBitmap.antt =====
-- src/level_bitmap.c and inc/level_bitmap.h: a set of numbers as a tree of words of 32 bits, in an
-- array in which a node stands before its children.
-- The array is a function of the index, from `bitmaps` on; the numbers are small enough that no
-- index wraps. The position of the lowest and of the highest bit, `_bsf` and `_bsr`, are
-- instructions, and parameters here.
pub mod Leaf
use Prim.Native.Nat.{bit_or, bit_and}
use x_os_tmp.Base.{
  ℕ, zero, suc, ◌+◌, ◌-◌, ◌*◌, ◌/◌, ◌%◌, ◌^◌, ◌==◌, ltb, if◌then◌else◌, Run, ok, out_of_fuel, ◌>>=◌,
  set_at, ℤ, pos, negsuc,
}

-- `struct level_bitmap_t`
pub record LevelBitmap : Type 0 where
  pub bitmaps : ℕ → ℕ
  pub max_level : ℕ

-- `level_jump_sizes[i]` for the levels up to 6: the number of words of a child of a node on level i.
abbrev pub level_jump_size : ℕ → ℕ
level_jump_size zero = 0
level_jump_size (suc i) = (32 * 32 ^ i - 1) / 31

-- `while(bit) { bit >>= 5; n += bit; }`: 7 rounds for 32 bits.
pub words_before : ℕ → ℕ → ℕ → Run ℕ
words_before zero bit n = out_of_fuel
words_before (suc f) bit n =
    let rest = words_before f (bit / 32) (n + bit / 32) in if bit == 0 then ok n else rest

unfoldable pub level_bitmap_bit_test : LevelBitmap → ℕ → Run ℕ
unfolding words_before
level_bitmap_bit_test map bit = do
  n ← words_before 8 bit 0
  ok (bit_and (map.bitmaps (n + map.max_level)) (2 ^ (bit % 32)))

-- The loop from level `i` down, which marks the way to the word of the bit.
pub mark_path : ℕ → ℕ → ℕ → (ℕ → ℕ) → ℕ × (ℕ → ℕ)
mark_path zero bit p words = (p, words)
mark_path (suc i) bit p words =
    let npos = bit / 32 ^ suc i % 32 in
    mark_path i bit (p + npos * level_jump_size (suc i) + 1)
      (set_at words p (bit_or (words p) (2 ^ npos)))

unfoldable pub level_bitmap_bit_set : ℕ → LevelBitmap → ℕ × LevelBitmap
unfolding mark_path
level_bitmap_bit_set bit map =
    let (p, words) = mark_path map.max_level bit 0 map.bitmaps in
    let npos = bit % 32 in
    (
      bit_and (words p) (2 ^ npos),
      record map { bitmaps = set_at words p (bit_or (words p) (2 ^ npos)) },
    )

-- `x & ~(1 << npos)` of 32 bits.
abbrev pub without_bit : ℕ → ℕ → ℕ
without_bit x npos = bit_and x ((2 ^ 32 - 1) - 2 ^ npos)

-- The loop up from a word that has become empty, for `room` levels from level `i` on.
pub clear_path : ℕ → ℕ → ℕ → ℕ → (ℕ → ℕ) → ℕ → ℕ
clear_path zero i bit p words = words
clear_path (suc room) i bit p words =
    let npos = bit % 32 in
    let q = p - (npos * level_jump_size i + 1) in
    let rest = clear_path room (i + 1) (bit / 32) q (set_at words q (without_bit (words q) npos)) in
    if words p == 0 then rest else words

unfoldable pub level_bitmap_bit_clear : ℕ → LevelBitmap → Run (ℕ × LevelBitmap)
unfolding words_before clear_path
level_bitmap_bit_clear bit map = do
  n ← words_before 8 bit 0
  let p = n + map.max_level
  let npos = bit % 32
  let rs = bit_and (map.bitmaps p) (2 ^ npos)
  let words = set_at map.bitmaps p (without_bit (map.bitmaps p) npos)
  ok (rs, record map { bitmaps = clear_path map.max_level 1 (bit / 32) p words })

-- The way down from level `i`, by the bit that `scan` finds in each word.
pub find_path : (ℕ → ℕ) → ℕ → ℕ → ℕ → (ℕ → ℕ) → ℕ
find_path scan zero p rs words = rs + scan (words p)
find_path scan (suc i) p rs words =
    let npos = scan (words p) in
    find_path scan i (p + npos * level_jump_size (suc i) + 1) ((rs + npos) * 32) words

-- The parameter is `_bsf`.
unfoldable pub level_bitmap_get_min : (ℕ → ℕ) → LevelBitmap → ℤ
unfolding find_path
level_bitmap_get_min bsf map =
    if map.bitmaps 0 == 0 then negsuc 0 else pos (find_path bsf map.max_level 0 0 map.bitmaps)

-- The parameter is `_bsr`.
unfoldable pub level_bitmap_get_max : (ℕ → ℕ) → LevelBitmap → ℤ
unfolding find_path
level_bitmap_get_max bsr map =
    if map.bitmaps 0 == 0 then negsuc 0 else pos (find_path bsr map.max_level 0 0 map.bitmaps)

-- The first `count` bits of a bitmap are copied to one of another height: the levels that are new
-- above get a word each, and the levels that are gone are left out.
unfoldable pub level_bitmap_cpy : LevelBitmap → LevelBitmap → ℕ → Run LevelBitmap
unfolding words_before
level_bitmap_cpy dst src count = do
  words ← words_before 8 count 0
  let n = words + src.max_level + 1
  let up = dst.max_level - src.max_level
  let down = src.max_level - dst.max_level
  ok (record dst {
    bitmaps = λ i.
        if ltb src.max_level dst.max_level
        then (if ltb i up
            then 1
            else if ltb i (up + n)
            then src.bitmaps (i - up)
            else dst.bitmaps i)
        else if ltb i (n - down)
        then src.bitmaps (i + down)
        else dst.bitmaps i;
  })

-- `for(i = start; i < start + n; ++i)`
unfoldable pub set_bits : ℕ → ℕ → LevelBitmap → LevelBitmap
unfolding level_bitmap_bit_set
set_bits start zero map = map
set_bits start (suc n) map = set_bits (start + 1) n (level_bitmap_bit_set start map).1

unfoldable pub level_bitmap_batch_set : ℕ → ℕ → LevelBitmap → LevelBitmap
unfolding set_bits
level_bitmap_batch_set start end map = set_bits start (end - start) map
