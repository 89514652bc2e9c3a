-- ===== src/Base/Lists.antt =====
-- Lists with native indices: the arrays of the source.
use Prim.Native.Nat.{ℕ, zero, suc, ◌+◌}
use mathlib.Core.Path.{◌≡◌, refl, sym, ap}
use mathlib.Core.Logic.{◌≢◌, ◌⊎◌, inl, inr}
use mathlib.Core.List.{List, [], ◌∷◌, ◌++◌}
use mathlib.Core.Option.{Option, none, some}
use native.Mathlib.Omega.{arith}

module _ {ℓ} {A : Type ℓ} where
  abbrev pub length : List A → ℕ
  length [] = 0
  length (_ ∷ xs) = suc (length xs)

  abbrev pub get_elem? : List A → ℕ → Option A
  get_elem? [] _ = none
  get_elem? (x ∷ _) zero = some x
  get_elem? (_ ∷ xs) (suc i) = get_elem? xs i

  -- A write out of bounds changes nothing; the theorems show that none is made.
  abbrev pub set : List A → ℕ → A → List A
  set [] _ _ = []
  set (_ ∷ xs) zero v = v ∷ xs
  set (x ∷ xs) (suc i) v = x ∷ set xs i v

  pub length-set : (xs : List A) (i : ℕ) (v : A) → length (set xs i v) ≡ length xs
  length-set [] i v = refl
  length-set (x ∷ xs) zero v = refl
  length-set (x ∷ xs) (suc i) v = ap suc (length-set xs i v)

  pub length-append : (xs ys : List A) → length (xs ++ ys) ≡ length xs + length ys
  length-append [] ys = omega arith
  length-append (x ∷ xs) ys = omega (arith, length-append xs ys)

-- A predicate that holds at every element.
abbrev pub All {ℓ κ} : {A : Type ℓ} → (A → Type κ) → List A → Type κ
All P [] = Unit
All P (x ∷ xs) = P x × All P xs

-- A number that a list does not hold, and a list that holds each number once.
abbrev pub Fresh : ℕ → List ℕ → Type 0
Fresh p = All (λ q. q ≢ p)

abbrev pub Distinct : List ℕ → Type 0
Distinct [] = Unit
Distinct (p ∷ ps) = Fresh p ps × Distinct ps

module _ {ℓ κ} {A : Type ℓ} (P : A → Type κ) where
  pub All-append : (xs ys : List A) → All P xs → All P ys → All P (xs ++ ys)
  All-append [] ys h k = k
  All-append (x ∷ xs) ys h k = (h.0, All-append xs ys h.1 k)

  pub All-append_left : (xs ys : List A) → All P (xs ++ ys) → All P xs
  All-append_left [] ys h = tt
  All-append_left (x ∷ xs) ys h = (h.0, All-append_left xs ys h.1)

  pub All-append_right : (xs ys : List A) → All P (xs ++ ys) → All P ys
  All-append_right [] ys h = h
  All-append_right (x ∷ xs) ys h = All-append_right xs ys h.1

pub All-imp {ℓ κ μ} :
    {A : Type ℓ} {P : A → Type κ} {Q : A → Type μ} (xs : List A)
    → ((x : A) → P x → Q x)
    → All P xs
    → All Q xs
All-imp [] f h = tt
All-imp (x ∷ xs) f h = (f x h.0, All-imp xs f h.1)

-- A number that stands in a list.
abbrev pub In : ℕ → List ℕ → Type 0
In p [] = ⊥
In p (q ∷ qs) = (q ≡ p) ⊎ In p qs

pub Fresh-of_not-In : (p : ℕ) (qs : List ℕ) → (In p qs → ⊥) → Fresh p qs
Fresh-of_not-In p [] h = tt
Fresh-of_not-In p (q ∷ qs) h = (λ e. h (inl e), Fresh-of_not-In p qs (λ k. h (inr k)))

pub Fresh-not-In : (p : ℕ) (qs : List ℕ) → Fresh p qs → In p qs → ⊥
Fresh-not-In p [] f k = k
Fresh-not-In p (q ∷ qs) f (inl e) = f.0 e
Fresh-not-In p (q ∷ qs) f (inr k) = Fresh-not-In p qs f.1 k

pub In-append : (p : ℕ) (xs ys : List ℕ) → In p (xs ++ ys) → In p xs ⊎ In p ys
In-append p [] ys k = inr k
In-append p (x ∷ xs) ys (inl e) = inl (inl e)
In-append p (x ∷ xs) ys (inr k) = elim (In-append p xs ys k) [ inl a ↦ inl (inr a) | inr b ↦ inr b ]

pub In-append_left : (p : ℕ) (xs ys : List ℕ) → In p xs → In p (xs ++ ys)
In-append_left p [] ys k = absurd k
In-append_left p (x ∷ xs) ys (inl e) = inl e
In-append_left p (x ∷ xs) ys (inr k) = inr (In-append_left p xs ys k)

pub In-append_right : (p : ℕ) (xs ys : List ℕ) → In p ys → In p (xs ++ ys)
In-append_right p [] ys k = k
In-append_right p (x ∷ xs) ys k = inr (In-append_right p xs ys k)

-- What `q` more in the middle adds.
pub In-insert :
    (p : ℕ) (xs : List ℕ) (q : ℕ) (ys : List ℕ) → In p (xs ++ ys) → In p (xs ++ (q ∷ ys))
In-insert p [] q ys k = inr k
In-insert p (x ∷ xs) q ys (inl e) = inl e
In-insert p (x ∷ xs) q ys (inr k) = inr (In-insert p xs q ys k)

pub In-middle : (xs : List ℕ) (p : ℕ) (ys : List ℕ) → In p (xs ++ (p ∷ ys))
In-middle [] p ys = inl refl
In-middle (x ∷ xs) p ys = inr (In-middle xs p ys)

pub Distinct-remove :
    (xs : List ℕ) (p : ℕ) (ys : List ℕ) → Distinct (xs ++ (p ∷ ys)) → Distinct (xs ++ ys)
Distinct-remove [] p ys d = d.1
Distinct-remove (x ∷ xs) p ys d = (
  Fresh-of_not-In x (xs ++ ys) (λ k. Fresh-not-In x (xs ++ (p ∷ ys)) d.0 (In-insert x xs p ys k)),
  Distinct-remove xs p ys d.1,
)

pub Distinct-middle :
    (xs : List ℕ) (p : ℕ) (ys : List ℕ) → Distinct (xs ++ (p ∷ ys)) → Fresh p (xs ++ ys)
Distinct-middle [] p ys d = d.0
Distinct-middle (x ∷ xs) p ys d = (
  λ e. Fresh-not-In x (xs ++ (p ∷ ys)) d.0 (rw e (In-middle xs p ys)),
  Distinct-middle xs p ys d.1,
)

pub Distinct-snoc : (xs : List ℕ) (p : ℕ) → Distinct xs → Fresh p xs → Distinct (xs ++ (p ∷ []))
Distinct-snoc [] p d f = (tt, tt)
Distinct-snoc (x ∷ xs) p d f = (
  Fresh-of_not-In x (xs ++ (p ∷ [])) (λ k. elim (In-append x xs (p ∷ []) k) [
    | inl a ↦ Fresh-not-In x xs d.0 a
    | inr b ↦ elim b [ inl e ↦ f.0 (sym e) | inr z ↦ z ]
  ]),
  Distinct-snoc xs p d.1 f.1,
)

-- Where a number stands in a list.
pub In-split :
    (p : ℕ) (ps : List ℕ) → In p ps → (xs : List ℕ) × (ys : List ℕ) × (ps ≡ xs ++ (p ∷ ys))
In-split p [] k = absurd k
In-split p (q ∷ qs) (inl e) = ([], qs, ap (λ r. r ∷ qs) e)
In-split p (q ∷ qs) (inr k) = let (xs, ys, e) = In-split p qs k in (q ∷ xs, ys, ap (λ r. q ∷ r) e)

pub In-without :
    (r : ℕ) (xs : List ℕ) (p : ℕ) (ys : List ℕ) → r ≢ p → In r (xs ++ (p ∷ ys)) → In r (xs ++ ys)
In-without r [] p ys ne (inl e) = absurd (ne (sym e))
In-without r [] p ys ne (inr k) = k
In-without r (x ∷ xs) p ys ne (inl e) = inl e
In-without r (x ∷ xs) p ys ne (inr k) = inr (In-without r xs p ys ne k)

pub All-zip :
    {P Q : ℕ → Type 0} {p : ℕ} (ps : List ℕ)
    → Fresh p ps
    → All P ps
    → ((z : ℕ) → z ≢ p → P z → Q z)
    → All Q ps
All-zip [] f a h = tt
All-zip (x ∷ xs) f a h = (h x f.0 a.0, All-zip xs f.1 a.1 h)
