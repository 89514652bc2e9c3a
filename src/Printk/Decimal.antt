-- ===== src/Printk/Decimal.antt =====
-- What `_printuint` and `_printint` print is the decimal numeral of the number, and the array of 16
-- bytes is large enough for it.
use x_os_tmp.Base.{
  ℕ, zero, suc, ◌+◌, ◌-◌, ◌*◌, ◌/◌, ◌%◌, ◌^◌, ◌<◌, ◌≤◌, ◌≡◌, refl, sym, ◌∙◌, ap, List, [], ◌∷◌,
  ◌++◌, ◌==◌, ltb, if◌then◌else◌, arith, All, All-append, Bool-cases, inl, inr, ok, length,
  length-append, length-set, set, get_elem?, some, ==→eq, ==→ne, ◌≢◌, le→ltb, ltb→le, eq→==,
}
use mathlib.Core.List.{append_assoc, append-nil}
use x_os_tmp.Printk.{digits_from, print_down, tmp16, printuint, printint}

-- The decimal digits of a number, most significant first.
abbrev pub decimal : ℕ → ℕ → List ℕ
decimal zero num = []
decimal (suc f) num =
    let high = decimal f (num / 10) in
    (if num / 10 == 0 then [] else high) ++ ((num % 10 + b'0') ∷ [])

-- The number that a numeral stands for.
abbrev pub value_from : ℕ → List ℕ → ℕ
value_from acc [] = acc
value_from acc (c ∷ cs) = value_from (acc * 10 + (c - b'0')) cs

abbrev pub value : List ℕ → ℕ
value = value_from 0

abbrev pub IsDigit : ℕ → Type 0
IsDigit c = (b'0' ≤ c) × (c ≤ b'9')

abbrev pub pow10 : ℕ → ℕ
pow10 zero = 1
pow10 (suc n) = 10 * pow10 n

value_from-append :
    (acc : ℕ) (cs : List ℕ) (d : ℕ)
    → value_from acc (cs ++ (d ∷ [])) ≡ value_from acc cs * 10 + (d - b'0')
value_from-append acc [] d = refl
value_from-append acc (c ∷ cs) d = value_from-append (acc * 10 + (c - b'0')) cs d

decimal-value : (f num : ℕ) → num < pow10 f → value (decimal f num) ≡ num
decimal-value zero num h = omega arith
decimal-value (suc f) num h = elim (Bool-cases (num / 10 == 0)) [
  | inl e ↦ rw e (omega (arith, ==→eq (num / 10) 0 e))
  | inr e ↦ rw e (
      value_from-append 0 (decimal f (num / 10)) (num % 10 + b'0')
      ∙ omega (arith, decimal-value f (num / 10) (omega arith)))
]

decimal-digits : (f num : ℕ) → All IsDigit (decimal f num)
decimal-digits zero num = tt
decimal-digits (suc f) num = elim (Bool-cases (num / 10 == 0)) [
  | inl e ↦ rw e ((omega arith, omega arith), tt)
  | inr e ↦ rw e (
      All-append IsDigit (decimal f (num / 10)) _ (decimal-digits f (num / 10))
        ((omega arith, omega arith), tt))
]

-- At least one digit, and no zero in front of another digit.
abbrev pub Canonical : List ℕ → Type 0
Canonical [] = ⊥
Canonical (c ∷ []) = Unit
Canonical (c ∷ d ∷ cs) = c ≢ b'0'

abbrev Leads : List ℕ → Type 0
Leads [] = ⊥
Leads (c ∷ cs) = c ≢ b'0'

Leads-append : (xs ys : List ℕ) → Leads xs → Leads (xs ++ ys)
Leads-append [] ys h = absurd h
Leads-append (x ∷ xs) ys h = h

Canonical-snoc : (xs : List ℕ) (d : ℕ) → Leads xs → Canonical (xs ++ (d ∷ []))
Canonical-snoc [] d h = absurd h
Canonical-snoc (x ∷ []) d h = h
Canonical-snoc (x ∷ y ∷ xs) d h = h

decimal-Leads : (f num : ℕ) → 1 ≤ num → num < pow10 f → Leads (decimal f num)
decimal-Leads zero num h b = absurd (omega (arith, h, b))
decimal-Leads (suc f) num h b = elim (Bool-cases (num / 10 == 0)) [
  | inl e ↦ rw e (λ z. omega (arith, h, z, ==→eq (num / 10) 0 e))
  | inr e ↦ rw e (
      Leads-append (decimal f (num / 10)) ((num % 10 + b'0') ∷ [])
        (decimal-Leads f (num / 10) (omega (arith, ==→ne (num / 10) 0 e)) (omega (arith, b))))
]

decimal-Canonical : (f num : ℕ) → num < pow10 (suc f) → Canonical (decimal (suc f) num)
decimal-Canonical f num b = elim (Bool-cases (num / 10 == 0)) [
  | inl e ↦ rw e tt
  | inr e ↦ rw e (
      Canonical-snoc (decimal f (num / 10)) (num % 10 + b'0')
        (decimal-Leads f (num / 10) (omega (arith, ==→ne (num / 10) 0 e)) (omega (arith, b))))
]

length-decimal : (f num : ℕ) → length (decimal f num) ≤ f
length-decimal zero num = omega arith
length-decimal (suc f) num = elim (Bool-cases (num / 10 == 0)) [
  | inl e ↦ rw e (omega arith)
  | inr e ↦ rw e (
      omega (
        arith,
        length-append (decimal f (num / 10)) ((num % 10 + b'0') ∷ []),
        length-decimal f (num / 10),
      ))
]

get_elem?-set_self : (xs : List ℕ) (i c : ℕ) → i < length xs → get_elem? (set xs i c) i ≡ some c
get_elem?-set_self [] i c h = absurd (omega arith)
get_elem?-set_self (x ∷ xs) zero c h = refl
get_elem?-set_self (x ∷ xs) (suc i) c h = get_elem?-set_self xs i c (omega arith)

get_elem?-set_above : (xs : List ℕ) (i c j : ℕ) → j < i → get_elem? (set xs i c) j ≡ get_elem? xs j
get_elem?-set_above [] i c j h = refl
get_elem?-set_above (x ∷ xs) zero c j h = absurd (omega arith)
get_elem?-set_above (x ∷ xs) (suc i) c zero h = refl
get_elem?-set_above (x ∷ xs) (suc i) c (suc j) h = get_elem?-set_above xs i c j (omega arith)

print_down-set_above :
    (j : ℕ) (xs : List ℕ) (i c : ℕ) → j ≤ i → print_down j (set xs i c) ≡ print_down j xs
unfolding print_down
print_down-set_above zero xs i c h = refl
print_down-set_above (suc j) xs i c h =
    rw (get_elem?-set_above xs i c j (omega arith), print_down-set_above j xs i c (omega arith))
      refl

print_down-set :
    (xs : List ℕ) (i c : ℕ) → i < length xs → print_down (suc i) (set xs i c) ≡ c ∷ print_down i xs
unfolding print_down
print_down-set xs i c h =
    rw (get_elem?-set_self xs i c h, print_down-set_above i xs i c (omega arith)) refl

-- The first loop leaves an array from which the second one prints the numeral, in front of what it
-- would have printed before.
DigitsDone : ℕ → ℕ → ℕ → ℕ → List ℕ → Type 0
DigitsDone f n num i tmp =
    (tmp' : List ℕ) × (i' : ℕ) × (digits_from f num i tmp ≡ ok (tmp', i'))
    × (print_down i' tmp' ≡ decimal n num ++ print_down i tmp)

digits_from-decimal :
    (f n num i : ℕ) (tmp : List ℕ)
    → num < pow10 (suc n)
    → suc n ≤ f
    → i + suc n ≤ length tmp
    → DigitsDone f (suc n) num i tmp
unfolding digits_from DigitsDone
digits_from-decimal zero n num i tmp h k b = absurd (omega arith)
digits_from-decimal (suc f) zero num i tmp h k b = (
  set tmp i (num % 10 + b'0'),
  i + 1,
  rw (eq→== (num / 10) 0 (omega arith)) refl,
  rw (eq→== (num / 10) 0 (omega arith))
      (rw next (print_down-set tmp i (num % 10 + b'0') (omega arith))),
)
  where
    next : i + 1 ≡ suc i
    next = omega arith
digits_from-decimal (suc f) (suc n) num i tmp h k b = elim (Bool-cases (num / 10 == 0)) [
  | inl e ↦ (
    set tmp i (num % 10 + b'0'),
    i + 1,
    rw e refl,
    rw e (rw next (print_down-set tmp i (num % 10 + b'0') (omega arith))),
  )
  | inr e ↦
      let (tmp', i', r, p) =
        digits_from-decimal f n (num / 10) (i + 1) (set tmp i (num % 10 + b'0')) (omega arith)
          (omega arith) (omega (arith, length-set tmp i (num % 10 + b'0'))) in
      (
        tmp',
        i',
        rw e r,
        rw e (
            p
            ∙ ap (λ out. decimal (suc n) (num / 10) ++ out)
                (rw next (print_down-set tmp i (num % 10 + b'0') (omega arith)))
            ∙ sym (
                append_assoc (decimal (suc n) (num / 10)) ((num % 10 + b'0') ∷ [])
                  (print_down i tmp))),
      )
]
  where
    next : i + 1 ≡ suc i
    next = omega arith

printuint-decimal : (num : ℕ) → num < 2 ^ 32 → printuint num ≡ ok (decimal 10 num)
unfolding printuint DigitsDone print_down
printuint-decimal num h =
    let (tmp', i', r, p) =
      digits_from-decimal 16 9 num 0 tmp16 (omega arith) (omega arith) (omega arith) in
    rw (r, p, append-nil (decimal 10 num)) refl

-- A uint32_t is printed as one to ten digits whose value is the number.
pub printuint-value :
    (num : ℕ)
    → num < 2 ^ 32
    → (s : List ℕ) × (printuint num ≡ ok s)
      × (value s ≡ num)
      × All IsDigit s
      × (length s ≤ 10)
      × Canonical s
printuint-value num h = (
  decimal 10 num,
  printuint-decimal num h,
  decimal-value 10 num (omega arith),
  decimal-digits 10 num,
  length-decimal 10 num,
  decimal-Canonical 9 num (omega arith),
)

-- An int is printed as the decimal numeral of its absolute value, of one digit at least and
-- without a leading zero, behind a minus sign exactly if it is negative, the smallest int too.
pub printint-value :
    (num : ℕ)
    → num < 2 ^ 32
    → (s : List ℕ) × (printint num ≡ ok (if ltb num (2 ^ 31) then s else b'-' ∷ s))
      × (value s ≡ (if ltb num (2 ^ 31) then num else 2 ^ 32 - num))
      × All IsDigit s
      × Canonical s
unfolding printint
printint-value num h = elim (Bool-cases (num == 2 ^ 31)) [
  | inl e ↦ (
    b'2' ∷ b'1' ∷ b'4' ∷ b'7' ∷ b'4' ∷ b'8' ∷ b'3' ∷ b'6' ∷ b'4' ∷ b'8' ∷ [],
    rw (e, le→ltb num (2 ^ 31) (omega (arith, ==→eq num (2 ^ 31) e))) refl,
    rw (==→eq num (2 ^ 31) e) refl,
    omega arith,
    λ z. omega (arith, z),
  )
  | inr e ↦ elim (Bool-cases (ltb num (2 ^ 31))) [
    | inl w ↦ let (s, r, v, d, l, c) = printuint-value num h in (s, rw (e, w) r, rw w v, d, c)
    | inr w ↦
        let (s, r, v, d, l, c) =
          printuint-value (2 ^ 32 - num) (omega (arith, ltb→le num (2 ^ 31) w)) in
        (s, rw (e, w, r) refl, rw w v, d, c)
  ]
]
