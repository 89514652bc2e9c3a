-- ===== src/Base/Bits.antt =====
-- The binary digits of a number under `&` and `^` with a power of 2.
use Prim.Native.Nat.{
  ℕ, zero, suc, ◌+◌, ◌-◌, ◌*◌, ◌/◌, ◌%◌, ◌^◌, ◌≤◌, ◌<◌, min, bit_and, bit_xor, digits, differ,
  bit_and-bitwise, bit_xor-bitwise,
}
use mathlib.Core.Path.{◌≡◌, refl, sym, ap, ◌∙◌}
use mathlib.Core.Logic.{◌≢◌, inl, inr}
use native.Mathlib.Omega.{arith}
use native.Mathlib.Numerals.{unary_clauses}
use x_os_tmp.Base.Tests.{◌==◌, ==→eq, ==→ne, Bool-cases}

-- The digit number k of w.
unfoldable pub bit : ℕ → ℕ → ℕ
bit zero w = w % 2
bit (suc k) w = bit k (w / 2)

pub bit-lt-two : (k w : ℕ) → bit k w < 2
unfolding bit
bit-lt-two zero w = omega arith
bit-lt-two (suc k) w = bit-lt-two k (w / 2)

pub bit-zero : (k : ℕ) → bit k 0 ≡ 0
unfolding bit
bit-zero zero = refl
bit-zero (suc k) = bit-zero k

-- Any operation on digits, with more rounds than there are digits.
module _ (rest : ℕ → ℕ) (op : ℕ → ℕ → ℕ) where
  no_digits : (rounds b : ℕ) → digits rest op rounds 0 b ≡ rest b
  no_digits zero b = refl
  no_digits (suc rounds) b = refl

  spare_rounds :
      (need have a b : ℕ)
      → a ≤ need
      → need ≤ have
      → digits rest op have a b ≡ digits rest op need a b
  spare_rounds zero have zero b h k = no_digits have b
  spare_rounds zero have (suc a) b h k = absurd (omega arith)
  spare_rounds (suc need) zero a b h k = absurd (omega arith)
  spare_rounds (suc need) (suc have) zero b h k = refl
  spare_rounds (suc need) (suc have) (suc a) b h k =
      ap (λ high. high * 2 + op (suc a % 2) (b % 2))
        (spare_rounds need have (suc a / 2) (b / 2) (omega (arith, h)) (omega (arith, k)))

  lowest :
      ((b : ℕ) → rest b ≡ rest (b / 2) * 2 + op 0 (b % 2))
      → (a b : ℕ)
      → digits rest op a a b ≡ digits rest op (a / 2) (a / 2) (b / 2) * 2 + op (a % 2) (b % 2)
  lowest out zero b = out b
  lowest out (suc a) b =
      ap (λ high. high * 2 + op (suc a % 2) (b % 2))
        (spare_rounds (suc a / 2) a (suc a / 2) (b / 2) (omega arith) (omega arith))

bit_and_step : (a b : ℕ) → bit_and a b ≡ bit_and (a / 2) (b / 2) * 2 + min (a % 2) (b % 2)
bit_and_step a b =
    bit_and-bitwise a b
    ∙ lowest (λ b. 0) min (λ b. omega arith) a b
    ∙ ap (λ high. high * 2 + min (a % 2) (b % 2)) (sym (bit_and-bitwise (a / 2) (b / 2)))

-- The sum of two digits without its carry.
differ-sum : (x y : ℕ) → x < 2 → y < 2 → differ x y ≡ (x + y) % 2
differ-sum zero y h k = omega (arith, k)
differ-sum (suc zero) zero h k = refl
differ-sum (suc zero) (suc zero) h k = refl
differ-sum (suc zero) (suc (suc y)) h k = absurd (omega (arith, k))
differ-sum (suc (suc x)) y h k = absurd (omega (arith, h))

bit_xor_step : (a b : ℕ) → bit_xor a b ≡ bit_xor (a / 2) (b / 2) * 2 + (a + b) % 2
bit_xor_step a b = omega (
  arith,
  bit_xor-bitwise a b
      ∙ lowest (λ b. b) differ (λ b. omega arith) a b
      ∙ ap (λ high. high * 2 + differ (a % 2) (b % 2)) (sym (bit_xor-bitwise (a / 2) (b / 2))),
  differ-sum (a % 2) (b % 2) (omega arith) (omega arith),
)

bit_and-zero : (n a : ℕ) → a ≤ n → bit_and a 0 ≡ 0
bit_and-zero zero a h =
    let none : a ≡ 0 = omega (arith, h) in ap (λ w. bit_and w 0) none ∙ bit_and-bitwise 0 0
bit_and-zero (suc n) a h = elim (Bool-cases (a == 0)) [
  | inl e ↦ ap (λ w. bit_and w 0) (==→eq a 0 e) ∙ bit_and-bitwise 0 0
  | inr e ↦ omega (arith, bit_and_step a 0, bit_and-zero n (a / 2) (omega (arith, h, ==→ne a 0 e)))
]

two_pow-suc : (k : ℕ) → 2 ^ suc k ≡ 2 * 2 ^ k
two_pow-suc k = simp unary_clauses (omega arith)

halved : (k : ℕ) → 2 ^ suc k / 2 ≡ 2 ^ k
halved k = omega (arith, two_pow-suc k)

-- `w & (1 << k)`
pub bit_and-power : (k w : ℕ) → bit_and w (2 ^ k) ≡ bit k w * 2 ^ k
unfolding bit
bit_and-power zero w = omega (arith, bit_and_step w 1, bit_and-zero (w / 2) (w / 2) (omega arith))
bit_and-power (suc k) w =
    let e = two_pow-suc k in
    omega (
      arith,
      e,
      bit_and_step w (2 ^ suc k),
      bit_and-power k (w / 2),
      ap (bit_and (w / 2)) (halved k),
      ap (λ z. bit k (w / 2) * z) e,
    )

bit_xor-zero : (n a : ℕ) → a ≤ n → bit_xor a 0 ≡ a
bit_xor-zero zero a h =
    let none : a ≡ 0 = omega (arith, h) in
    ap (λ w. bit_xor w 0) none ∙ bit_xor-bitwise 0 0 ∙ sym none
bit_xor-zero (suc n) a h = elim (Bool-cases (a == 0)) [
  | inl e ↦ ap (λ w. bit_xor w 0) (==→eq a 0 e) ∙ bit_xor-bitwise 0 0 ∙ sym (==→eq a 0 e)
  | inr e ↦ omega (arith, bit_xor_step a 0, bit_xor-zero n (a / 2) (omega (arith, h, ==→ne a 0 e)))
]

-- `pos ^ 1`
pub bit_xor-one : (a : ℕ) → bit_xor a 1 ≡ a / 2 * 2 + (a + 1) % 2
bit_xor-one a = omega (arith, bit_xor_step a 1, bit_xor-zero (a / 2) (a / 2) (omega arith))

half-xor : (k w : ℕ) → bit_xor w (2 ^ suc k) / 2 ≡ bit_xor (w / 2) (2 ^ k)
half-xor k w = omega (arith, bit_xor_step w (2 ^ suc k), ap (bit_xor (w / 2)) (halved k))

half-xor_one : (w : ℕ) → bit_xor w 1 / 2 ≡ w / 2
half-xor_one w = omega (arith, bit_xor-one w)

-- `w ^ (1 << k)` changes the digit k and no other one.
pub bit-xor_self : (k w : ℕ) → bit k (bit_xor w (2 ^ k)) ≡ 1 - bit k w
unfolding bit
bit-xor_self zero w = omega (arith, bit_xor-one w)
bit-xor_self (suc k) w = ap (bit k) (half-xor k w) ∙ bit-xor_self k (w / 2)

pub bit-xor_ne : (j k w : ℕ) → j ≢ k → bit j (bit_xor w (2 ^ k)) ≡ bit j w
unfolding bit
bit-xor_ne zero zero w h = absurd (h refl)
bit-xor_ne zero (suc k) w h = omega (arith, bit_xor_step w (2 ^ suc k), two_pow-suc k)
bit-xor_ne (suc j) zero w h = ap (bit j) (half-xor_one w)
bit-xor_ne (suc j) (suc k) w h =
    ap (bit j) (half-xor k w) ∙ bit-xor_ne j k (w / 2) (λ e. h (ap suc e))

two_pow-pos : (k : ℕ) → 0 < 2 ^ k
two_pow-pos zero = omega arith
two_pow-pos (suc k) = omega (arith, two_pow-suc k, two_pow-pos k)

-- The test of the digit k.
pub bit_and-test :
    (k w : ℕ) → (bit k w ≡ 0 → bit_and w (2 ^ k) ≡ 0) × (bit_and w (2 ^ k) ≡ 0 → bit k w ≡ 0)
bit_and-test k w = (
  λ h. bit_and-power k w ∙ ap (λ z. z * 2 ^ k) h ∙ omega arith,
  λ h. grind (arith, two_pow-pos k, bit_and-power k w, bit-lt-two k w),
)
