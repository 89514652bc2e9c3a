-- ===== src/Buddy/Free.antt =====
-- `free_address_area`: a block comes back, and joins its buddy as long as that is free.
use x_os_tmp.Base.{
  ℕ, zero, suc, ◌+◌, ◌-◌, ◌*◌, ◌/◌, ◌%◌, ◌^◌, ◌≤◌, ◌<◌, ◌≡◌, ◌≢◌, refl, sym, ap, subst, ◌∙◌, ◌==◌,
  ltb, not, ◌||◌, if◌then◌else◌, none, List, ◌∷◌, ◌++◌, arith, Bool-cases, inl, inr, le→ltb, ==→eq,
  ==→ne, eq→==, ne→==, one, one_ne, one_cases, occurs, occurs-append, ok, panic, Run,
}
use x_os_tmp.Base.Bits.{bit-lt-two, bit_and-test}
use Prim.Native.Nat.{bit_and, bit_xor}
use x_os_tmp.CircularList.Rings.{with_row}
use x_os_tmp.Buddy.{
  Buddy, buddy_dep, mem_start, toggle, push, unlink_block, position_of, free_from,
  free_address_area,
}
use x_os_tmp.Buddy.Blocks.{Chain, Blocks, covers, covers-row, block_absent, block_once}
use x_os_tmp.Buddy.Links.{Back}
use x_os_tmp.Buddy.Mates.{
  position_of-Inside, pair_member, pair_other, buddy_pair, free_of-buddy, occurs_split,
  merged_pages,
}
use x_os_tmp.Buddy.Unlink.{Relisted, unlink_block-Relisted, push-Relisted}
use x_os_tmp.Buddy.Pairs.{pair_bit, free_of, Paired, toggle_self, Relisted-Blocks, Relisted-Paired}

-- A block of 2^n pages is free again, with every other page as free as before.
pub record Freed (n pos : ℕ) (t : ℕ → List ℕ) (b' : Buddy) : Type 0 where
  pub lists : ℕ → List ℕ
  pub blocks : Blocks b' lists
  pub paired : Paired b' lists
  pub pages : (g : ℕ) → covers 15 0 lists g ≡ covers 15 0 t g + one (g / 2 ^ n) pos

-- The branches of the function, at the word x & mask.
push_branch :
    (p x n : ℕ) (u v : Run Buddy)
    → mem_start ≤ p
    → (x ≡ 0 → n ≡ 14)
    → (if ltb p mem_start then panic else if not (x == 0) || (n == 14) then u else v) ≡ u
push_branch p x n u v lo last = elim (Bool-cases (x == 0)) [
  | inl e ↦ rw (le→ltb p mem_start lo, e, eq→== n 14 (last (==→eq x 0 e))) refl
  | inr e ↦ rw (le→ltb p mem_start lo, e) refl
]

join_branch :
    (p x n : ℕ) (u v : Run Buddy)
    → mem_start ≤ p
    → x ≡ 0
    → n ≢ 14
    → (if ltb p mem_start then panic else if not (x == 0) || (n == 14) then u else v) ≡ v
join_branch p x n u v lo e below = rw (le→ltb p mem_start lo, eq→== x 0 e, ne→== n 14 below) refl

module _ (n p : ℕ) (b : Buddy) (t : ℕ → List ℕ) (h : n < 15) (lo : mem_start ≤ p) (hi : p < 2 ^ 32)
    (s : Blocks b t) (k : Paired b t)
    (free : (g : ℕ) → covers 15 0 t g + one (g / 2 ^ n) (position_of n p) ≤ 1) where
  abbrev pos : ℕ
  pos = position_of n p

  absent : occurs pos (t n) ≡ 0
  absent = block_absent t n pos h free

  -- The block is put on the list of its level.
  push-Freed : (n < 14 → pair_bit b n (pos / 2) ≡ 0) → Freed n pos t (push n pos (toggle n pos b))
  unfolding occurs
  push-Freed zero_bit = record {
    lists = with_row t n (pos ∷ t n);
    blocks =
        Relisted-Blocks n pos (pos ∷ t n) b (push n pos (toggle n pos b)) t relisted s small
          (λ g. omega (arith, covers-row t n (pos ∷ t n) g h, free g));
    paired =
        Relisted-Paired n pos (pos ∷ t n) b (push n pos (toggle n pos b)) t relisted k
          (λ i ne. omega (arith, pair_other pos i ne))
          (λ l. omega (
            arith,
            zero_bit l,
            k.bits n (pos / 2) l,
            pair_member pos (pos / 2) refl,
            free_of-buddy pos (t n) absent,
            block_once b t n (bit_xor pos 1) h s,
          ));
    pages = λ g. omega (arith, covers-row t n (pos ∷ t n) g h);
  }
    where
      once : (z : ℕ) → one z pos + occurs z (t n) ≤ 1
      once z = elim (Bool-cases (z == pos)) [
        | inl e ↦ omega (arith, one_cases z pos, ap (λ w. occurs w (t n)) (==→eq z pos e), absent)
        | inr e ↦ omega (arith, one_ne z pos (==→ne z pos e), block_once b t n z h s)
      ]

      relisted : Relisted n (pos ∷ t n) (toggle n pos b) (push n pos (toggle n pos b))
      relisted = push-Relisted n pos (t n) (toggle n pos b) once (s.chain n h) (k.back n h)

      small : (z : ℕ) → 1 ≤ one z pos + occurs z (t n) → z < 2 ^ (18 - n)
      small z i = elim (Bool-cases (z == pos)) [
        | inl e ↦ rw (==→eq z pos e) (position_of-Inside n h p lo hi)
        | inr e ↦ s.inside n z h (omega (arith, i, one_ne z pos (==→ne z pos e)))
      ]

  -- The state behind the removal of the buddy, which is free.
  record Joined (b' : Buddy) : Type 0 where
    lists : ℕ → List ℕ
    blocks : Blocks b' lists
    paired : Paired b' lists
    pages : (g : ℕ) → covers 15 0 t g ≡ covers 15 0 lists g + one (g / 2 ^ n) (bit_xor pos 1)

  unlink-Joined :
      n < 14 → pair_bit b n (pos / 2) ≡ 1 → Joined (unlink_block n (bit_xor pos 1) (toggle n pos b))
  unfolding occurs
  unlink-Joined l one_bit = record {
    lists = with_row t n (xs ++ ys);
    blocks =
        Relisted-Blocks n pos (xs ++ ys) b _ t relisted s
          (λ z i. s.inside n z h (omega (arith, i, parts z)))
          (λ g. omega (arith, s.apart g, parts (g / 2 ^ n), covers-row t n (xs ++ ys) g h));
    paired =
        Relisted-Paired n pos (xs ++ ys) b _ t relisted k
          (λ i ne. omega (
            arith,
            parts (2 * i),
            parts (2 * i + 1),
            pair_other q i (λ e. ne (e ∙ buddy_pair pos)),
          ))
          (λ l'. omega (
            arith,
            one_bit,
            free_one,
            parts (2 * (pos / 2)),
            parts (2 * (pos / 2) + 1),
            pair_member q (pos / 2) (sym (buddy_pair pos)),
          ));
    pages = λ g. omega (arith, parts (g / 2 ^ n), covers-row t n (xs ++ ys) g h);
  }
    where
      q : ℕ
      q = bit_xor pos 1

      free_one : free_of (t n) (pos / 2) ≡ 1
      free_one = omega (
        arith,
        k.bits n (pos / 2) l,
        one_bit,
        free_of-buddy pos (t n) absent,
        block_once b t n q h s,
      )

      parted : (xs : List ℕ) × (ys : List ℕ) × (t n ≡ xs ++ (q ∷ ys))
      parted = occurs_split q (t n) (omega (arith, free_one, free_of-buddy pos (t n) absent))

      xs : List ℕ
      xs = parted.0

      ys : List ℕ
      ys = parted.1

      parts : (z : ℕ) → occurs z (t n) ≡ occurs z (xs ++ ys) + one z q
      parts z =
          omega (arith, ap (occurs z) parted.2, occurs-append z xs (q ∷ ys), occurs-append z xs ys)

      relisted : Relisted n (xs ++ ys) (toggle n pos b) (unlink_block n q (toggle n pos b))
      relisted =
          unlink_block-Relisted n q ys (toggle n pos b) xs
            (λ z. omega (arith, block_once b t n z h s, ap (occurs z) parted.2))
            (subst (Chain (b.next n) (b.list_head n)) parted.2 (s.chain n h))
            (subst (Back (b.prev n) none) parted.2 (k.back n h))

  -- The test of the bit.
  tested :
      bit_and ((toggle n pos b).map n (pos / 2 / 32)) (2 ^ (pos / 2 % 32)) ≢ 0
      → pair_bit b n (pos / 2) ≡ 0
  tested ne = elim (Bool-cases (pair_bit b n (pos / 2) == 0)) [
    | inl e ↦ ==→eq (pair_bit b n (pos / 2)) 0 e
    | inr e ↦ absurd (
        ne (
          (bit_and-test (pos / 2 % 32) ((toggle n pos b).map n (pos / 2 / 32))).0
            (omega (arith, toggle_self n pos b, ==→ne (pair_bit b n (pos / 2)) 0 e))))
  ]

  tested_zero :
      bit_and ((toggle n pos b).map n (pos / 2 / 32)) (2 ^ (pos / 2 % 32)) ≡ 0
      → pair_bit b n (pos / 2) ≡ 1
  tested_zero e = omega (
    arith,
    toggle_self n pos b,
    (bit_and-test (pos / 2 % 32) ((toggle n pos b).map n (pos / 2 / 32))).1 e,
    bit-lt-two (pos / 2 % 32) (b.map n (pos / 2 / 32)),
  )

  -- The joined block is not free yet, and its pages are those of the two.
  next_free :
      (b' : Buddy) (j : Joined b')
      → n < 14
      → (g : ℕ) → covers 15 0 j.lists g + one (g / 2 ^ (n + 1)) (position_of (n + 1) p) ≤ 1
  next_free b' j l g = omega (arith, free g, j.pages g, merged_pages n p g l)

  next-Freed :
      (b' b'' : Buddy) (j : Joined b')
      → n < 14
      → Freed (n + 1) (position_of (n + 1) p) j.lists b''
      → Freed n pos t b''
  next-Freed b' b'' j l f = record {
    lists = f.lists;
    blocks = f.blocks;
    paired = f.paired;
    pages = λ g. omega (arith, f.pages g, j.pages g, merged_pages n p g l);
  }

free_from-Freed :
    (f n p : ℕ) (b : Buddy) (t : ℕ → List ℕ)
    → n + f ≡ 15
    → n < 15
    → mem_start ≤ p
    → p < 2 ^ 32
    → Blocks b t
    → Paired b t
    → ((g : ℕ) → covers 15 0 t g + one (g / 2 ^ n) (position_of n p) ≤ 1)
    → (b' : Buddy) × (free_from f p n b ≡ ok b') × Freed n (position_of n p) t b'
unfolding free_from
free_from-Freed zero n p b t e h lo hi s k free = absurd (omega (arith, e, h))
free_from-Freed (suc f) n p b t e h lo hi s k free = elim (Bool-cases (n == 14)) [
  | inl last ↦ (
    push n pos (toggle n pos b),
    push_branch p word n _ _ lo (λ z. ==→eq n 14 last),
    push-Freed n p b t h lo hi s k free (λ l. absurd (omega (arith, ==→eq n 14 last, l))),
  )
  | inr below ↦ elim (Bool-cases (word == 0)) [
    | inl z ↦
        let l : n < 14 = omega (arith, h, ==→ne n 14 below) in
        let j =
          unlink-Joined n p b t h lo hi s k free l
            (tested_zero n p b t h lo hi s k free (==→eq word 0 z)) in
        let r =
          free_from-Freed f (n + 1) p (unlink_block n (bit_xor pos 1) (toggle n pos b)) j.lists
            (omega (arith, e)) (omega (arith, l)) lo hi j.blocks j.paired
            (next_free n p b t h lo hi s k free _ j l) in
        (
          r.0,
          join_branch p word n _ _ lo (==→eq word 0 z) (==→ne n 14 below) ∙ r.1,
          next-Freed n p b t h lo hi s k free _ r.0 j l r.2,
        )
    | inr z ↦ (
      push n pos (toggle n pos b),
      push_branch p word n _ _ lo (λ q. absurd (==→ne word 0 z q)),
      push-Freed n p b t h lo hi s k free (λ l. tested n p b t h lo hi s k free (==→ne word 0 z)),
    )
  ]
]
  where
    pos : ℕ
    pos = position_of n p

    word : ℕ
    word = bit_and ((toggle n pos b).map n (pos / 2 / 32)) (2 ^ (pos / 2 % 32))

-- When the free lists of the buddy allocator cover no page twice and lead back, when the bit of
-- each pair below the highest level says whether one of its two blocks alone is free, and when no
-- page of the block of 2^n pages at p, an address from MEM_START on, is free, free_address_area
-- returns without a failed assertion. Then exactly the pages of that block are free besides those
-- that were, whatever blocks were joined, and lists and bits are again as before.
pub free_address_area-Freed :
    (n p : ℕ) (b : Buddy) (t : ℕ → List ℕ)
    → n < 15
    → mem_start ≤ p
    → p < 2 ^ 32
    → Blocks b t
    → Paired b t
    → ((g : ℕ) → covers 15 0 t g + one (g / 2 ^ n) (position_of n p) ≤ 1)
    → (b' : Buddy) × (free_address_area p n b ≡ ok b') × Freed n (position_of n p) t b'
unfolding free_address_area
free_address_area-Freed n p b t h lo hi s k free =
    free_from-Freed (buddy_dep - n) n p b t (omega (arith, h)) h lo hi s k free
