-- ===== src/LevelBitmap/Leaf.antt =====
-- The bits below 32, whose leaf is the first one.
use Prim.Native.Nat.{bit_and}
use x_os_tmp.Base.{
  ℕ, ◌+◌, ◌/◌, ◌%◌, ◌^◌, ◌<◌, ◌≡◌, refl, ◌==◌, Bool-cases, inl, inr, ok, arith, set_at,
}
use x_os_tmp.LevelBitmap.{
  LevelBitmap, level_bitmap_bit_clear, words_before, without_bit, clear_path,
}

-- The leaf of a bit below 32 is the first one.
words_before-first : (bit : ℕ) → bit < 32 → words_before 8 bit 0 ≡ ok 0
unfolding words_before
words_before-first bit h = elim (Bool-cases (bit == 0)) [
  | inl e ↦ rw e refl
  | inr e ↦ rw (e, small) refl
]
  where
    small : bit / 32 ≡ 0
    small = omega arith

pub level_bitmap_bit_clear-ok :
    (bit : ℕ) (map : LevelBitmap)
    → bit < 32
    → (rs : ℕ) × (map' : LevelBitmap) × (level_bitmap_bit_clear bit map ≡ ok (rs, map'))
unfolding level_bitmap_bit_clear
level_bitmap_bit_clear-ok bit map h =
    let words =
      set_at map.bitmaps (0 + map.max_level)
        (without_bit (map.bitmaps (0 + map.max_level)) (bit % 32)) in
    (
      bit_and (map.bitmaps (0 + map.max_level)) (2 ^ (bit % 32)),
      record map { bitmaps = clear_path map.max_level 1 (bit / 32) (0 + map.max_level) words },
      rw (words_before-first bit h) refl,
    )
