-- ===== src/Printk/Format.antt =====
-- The loop of `printk` over the format.
use x_os_tmp.Base.{
  ℕ, ◌+◌, ◌%◌, ◌^◌, ◌<◌, ◌≡◌, refl, List, [], ◌∷◌, ◌++◌, ◌==◌, if◌then◌else◌, Bool-cases, inl, inr,
  Run, ok, ltb,
}
use x_os_tmp.Printk.{print_param, print_format, printk}
use x_os_tmp.Printk.Decimal.{printint-value, printuint-value}

abbrev pub Ends : Run (List ℕ) → Type 0
Ends run = (out : List ℕ) × (run ≡ ok out)

print_param-Ends :
    (string : ℕ → List ℕ) (letter word : ℕ) → word < 2 ^ 32 → Ends (print_param string letter word)
unfolding print_param
print_param-Ends string letter word h = elim (Bool-cases (letter == b'd')) [
  | inl e ↦
      let v = printint-value word h in ((if ltb word (2 ^ 31) then v.0 else b'-' ∷ v.0), rw e v.1)
  | inr e ↦ elim (Bool-cases (letter == b'u')) [
    | inl f ↦ let v = printuint-value word h in (v.0, rw (e, f) v.1)
    | inr f ↦ elim (Bool-cases (letter == b'c')) [
      | inl g ↦ (word % 2 ^ 8 ∷ [], rw (e, f, g) refl)
      | inr g ↦ elim (Bool-cases (letter == b's')) [
        | inl j ↦ (string word, rw (e, f, g, j) refl)
        | inr j ↦ ([], rw (e, f, g, j) refl)
      ]
    ]
  ]
]

print_format-Ends :
    (string : ℕ → List ℕ) (params : ℕ → ℕ)
    → ((i : ℕ) → params i < 2 ^ 32)
    → (fmt : List ℕ) (i : ℕ) → Ends (print_format string params i fmt)
unfolding print_format
print_format-Ends string params w [] i = ([], refl)
print_format-Ends string params w (c ∷ []) i = elim (Bool-cases (c == b'%')) [
  | inl e ↦ ([], rw e refl)
  | inr e ↦ (c ∷ [], rw e refl)
]
print_format-Ends string params w (c ∷ d ∷ fmt) i = elim (Bool-cases (c == b'%')) [
  | inl e ↦
      let one_param = print_param-Ends string d (params i) (w i) in
      let rest = print_format-Ends string params w fmt (i + 1) in
      (one_param.0 ++ rest.0, rw (e, one_param.1, rest.1) refl)
  | inr e ↦
      let rest = print_format-Ends string params w (d ∷ fmt) i in (c ∷ rest.0, rw (e, rest.1) refl)
]

-- With words of 32 bits for its parameters, printk ends, whatever the format.
pub printk-Ends :
    (string : ℕ → List ℕ) (fmt : List ℕ) (params : ℕ → ℕ)
    → ((i : ℕ) → params i < 2 ^ 32)
    → Ends (printk string fmt params)
unfolding printk
printk-Ends string fmt params w = print_format-Ends string params w fmt 0
