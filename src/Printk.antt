-- ===== src/Printk.antt =====
-- src/printk.c: the decimal output of numbers, and the format.
-- The output is the list of bytes that `_printchar` is called with, in order.
pub mod Decimal
pub mod Format
use x_os_tmp.Base.{
  ℕ, zero, suc, ◌+◌, ◌-◌, ◌*◌, ◌/◌, ◌%◌, ◌^◌, ◌<◌, Bool, true, false, List, [], ◌∷◌, ◌++◌, ◌==◌,
  ltb, if◌then◌else◌, Run, ok, out_of_fuel, ◌>>=◌, length, set, get_elem?, Option, some, none,
}

-- `do { tmp[i] = (num % 10) + '0'; num /= 10; ++i; } while(num);`
-- The array and the index behind the last digit.
pub digits_from : ℕ → ℕ → ℕ → List ℕ → Run (List ℕ × ℕ)
digits_from zero num i tmp = out_of_fuel
digits_from (suc f) num i tmp =
    let tmp' = set tmp i (num % 10 + b'0') in
    let rest = digits_from f (num / 10) (i + 1) tmp' in
    if num / 10 == 0 then ok (tmp', i + 1) else rest

-- One byte of the array, in front of the output that follows it.
abbrev pub print_byte : Option ℕ → List ℕ → List ℕ
print_byte none out = out
print_byte (some c) out = c ∷ out

-- `while(i < 16) { _printchar(tmp[i]); --i; }`, which ends when `i` wraps below 0.
pub print_down : ℕ → List ℕ → List ℕ
print_down zero tmp = []
print_down (suc i) tmp = print_byte (get_elem? tmp i) (print_down i tmp)

-- `char tmp[16]`, not initialised: the theorems read no byte that was not written.
abbrev pub tmp16 : List ℕ
tmp16 = 0 ∷ 0 ∷ 0 ∷ 0 ∷ 0 ∷ 0 ∷ 0 ∷ 0 ∷ 0 ∷ 0 ∷ 0 ∷ 0 ∷ 0 ∷ 0 ∷ 0 ∷ 0 ∷ []

-- `_printuint`, with fuel for the ten digits of a `uint32_t`. `--i` and the loop down.
unfoldable pub printuint : ℕ → Run (List ℕ)
unfolding digits_from print_down
printuint num = do (tmp, i) ← digits_from 16 num 0 tmp16; ok (print_down i tmp)

-- `_printint`, of the bit pattern of an `int`.
unfoldable pub printint : ℕ → Run (List ℕ)
unfolding printuint
printint num =
    let negative = (do s ← printuint (2 ^ 32 - num); ok (b'-' ∷ s)) in
    if num == 2 ^ 31
    then ok (b'-' ∷ b'2' ∷ b'1' ∷ b'4' ∷ b'7' ∷ b'4' ∷ b'8' ∷ b'3' ∷ b'6' ∷ b'4' ∷ b'8' ∷ [])
    else if ltb num (2 ^ 31)
    then printuint num
    else negative

-- One parameter, a word of the stack, by the letter behind `%`. `string` gives the bytes at an
-- address up to the 0.
unfoldable pub print_param : (ℕ → List ℕ) → ℕ → ℕ → Run (List ℕ)
unfolding printint printuint
print_param string letter word =
    if letter == b'd'
    then printint word
    else if letter == b'u'
    then printuint word
    else if letter == b'c'
    then ok (word % 2 ^ 8 ∷ [])
    else if letter == b's'
    then ok (string word)
    else ok []

-- `while(*fmt)` of `printk`, on the bytes before the 0 and the words of the stack from `i` on.
unfoldable pub print_format : (ℕ → List ℕ) → (ℕ → ℕ) → ℕ → List ℕ → Run (List ℕ)
unfolding print_param
print_format string params i [] = ok []
print_format string params i (c ∷ []) = if c == b'%' then ok [] else ok (c ∷ [])
print_format string params i (c ∷ d ∷ fmt) =
    let plain = (do out ← print_format string params i (d ∷ fmt); ok (c ∷ out)) in
    let param = (do
      out ← print_param string d (params i)
      rest ← print_format string params (i + 1) fmt
      ok (out ++ rest)) in
    if c == b'%' then param else plain

unfoldable pub printk : (ℕ → List ℕ) → List ℕ → (ℕ → ℕ) → Run (List ℕ)
unfolding print_format
printk string fmt params = print_format string params 0 fmt
