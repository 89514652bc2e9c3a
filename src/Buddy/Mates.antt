-- ===== src/Buddy/Mates.antt =====
-- The positions of the two blocks of a pair, and their pages.
use x_os_tmp.Base.{
  ℕ, ◌+◌, ◌-◌, ◌*◌, ◌/◌, ◌%◌, ◌^◌, ◌≤◌, ◌<◌, ◌≡◌, ◌≢◌, sym, ap, ◌∙◌, ◌==◌, List, [], ◌∷◌, ◌++◌,
  arith, Bool-cases, inl, inr, ==→eq, ==→ne, one, one_ne, occurs,
}
use x_os_tmp.Base.Bits.{bit_xor-one}
use Prim.Native.Nat.{bit_xor}
use x_os_tmp.Kernel.{sub32}
use x_os_tmp.Buddy.{mem_start, position_of}
use x_os_tmp.Buddy.Area.{each-at}
use x_os_tmp.Buddy.Get.{half_page, splits}
use x_os_tmp.Buddy.Pairs.{free_of}

-- The position of an address of the area.
abbrev pub Inside : ℕ → Type 0
Inside n = (p : ℕ) → mem_start ≤ p → p < 2 ^ 32 → position_of n p < 2 ^ (18 - n)

pub position_of-Inside : (n : ℕ) → n < 15 → Inside n
position_of-Inside n h =
    each-at Inside 15 0 n
      (
        λ p l u. omega arith,
        (
          λ p l u. omega arith,
          (
            λ p l u. omega arith,
            (
              λ p l u. omega arith,
              (
                λ p l u. omega arith,
                (
                  λ p l u. omega arith,
                  (
                    λ p l u. omega arith,
                    (
                      λ p l u. omega arith,
                      (
                        λ p l u. omega arith,
                        (
                          λ p l u. omega arith,
                          (
                            λ p l u. omega arith,
                            (
                              λ p l u. omega arith,
                              (
                                λ p l u. omega arith,
                                (λ p l u. omega arith, (λ p l u. omega arith, tt)),
                              ),
                            ),
                          ),
                        ),
                      ),
                    ),
                  ),
                ),
              ),
            ),
          ),
        ),
      )
      (omega arith) (omega arith)

-- The two blocks of a pair.
pub pair_member : (pos i : ℕ) → i ≡ pos / 2 → one (2 * i) pos + one (2 * i + 1) pos ≡ 1
unfolding one
pair_member pos i h = ground arith

pub pair_other : (pos i : ℕ) → i ≢ pos / 2 → one (2 * i) pos + one (2 * i + 1) pos ≡ 0
unfolding one
pair_other pos i h = ground arith

pub buddy_pair : (pos : ℕ) → bit_xor pos 1 / 2 ≡ pos / 2
buddy_pair pos = omega (arith, bit_xor-one pos)

-- Of a pair with one block in use, the other one is free or not.
pub free_of-buddy :
    (pos : ℕ) (ps : List ℕ) → occurs pos ps ≡ 0 → free_of ps (pos / 2) ≡ occurs (bit_xor pos 1) ps
free_of-buddy pos ps h = elim (Bool-cases (pos % 2 == 0)) [
  | inl e ↦
      let a : 2 * (pos / 2) ≡ pos = omega (arith, ==→eq (pos % 2) 0 e) in
      let c : 2 * (pos / 2) + 1 ≡ bit_xor pos 1 =
        omega (arith, ==→eq (pos % 2) 0 e, bit_xor-one pos) in
      omega (arith, ap (λ w. occurs w ps) a, ap (λ w. occurs w ps) c, h)
  | inr e ↦
      let a : 2 * (pos / 2) + 1 ≡ pos = omega (arith, ==→ne (pos % 2) 0 e) in
      let c : 2 * (pos / 2) ≡ bit_xor pos 1 = omega (arith, ==→ne (pos % 2) 0 e, bit_xor-one pos) in
      omega (arith, ap (λ w. occurs w ps) a, ap (λ w. occurs w ps) c, h)
]

pub occurs_split :
    (q : ℕ) (ps : List ℕ) → 1 ≤ occurs q ps → (xs : List ℕ) × (ys : List ℕ) × (ps ≡ xs ++ (q ∷ ys))
unfolding occurs
occurs_split q [] h = absurd (omega (arith, h))
occurs_split q (x ∷ ps) h = elim (Bool-cases (q == x)) [
  | inl e ↦ ([], ps, ap (λ w. w ∷ ps) (sym (==→eq q x e)))
  | inr e ↦
      let r = occurs_split q ps (omega (arith, h, one_ne q x (==→ne q x e))) in
      (x ∷ r.0, r.1, ap (λ w. x ∷ w) r.2)
]

-- A block of the level above is made of a block and its buddy.
pair_pages :
    (x pos : ℕ)
    → one x (2 * (pos / 2)) + one x (2 * (pos / 2) + 1) ≡ one x pos + one x (bit_xor pos 1)
pair_pages x pos = elim (Bool-cases (pos % 2 == 0)) [
  | inl e ↦
      let a : 2 * (pos / 2) ≡ pos = omega (arith, ==→eq (pos % 2) 0 e) in
      let c : 2 * (pos / 2) + 1 ≡ bit_xor pos 1 =
        omega (arith, ==→eq (pos % 2) 0 e, bit_xor-one pos) in
      omega (arith, ap (one x) a, ap (one x) c)
  | inr e ↦
      let a : 2 * (pos / 2) + 1 ≡ pos = omega (arith, ==→ne (pos % 2) 0 e) in
      let c : 2 * (pos / 2) ≡ bit_xor pos 1 = omega (arith, ==→ne (pos % 2) 0 e, bit_xor-one pos) in
      omega (arith, ap (one x) a, ap (one x) c)
]

pub merged_pages :
    (n p g : ℕ)
    → n < 14
    → one (g / 2 ^ (n + 1)) (position_of (n + 1) p)
      ≡ one (g / 2 ^ n) (position_of n p) + one (g / 2 ^ n) (bit_xor (position_of n p) 1)
merged_pages n p g h =
    ap (one (g / 2 ^ (n + 1))) (half_page n (omega arith) (sub32 p mem_start / 4096))
    ∙ splits n (omega arith) g (position_of n p / 2)
    ∙ pair_pages (g / 2 ^ n) (position_of n p)
