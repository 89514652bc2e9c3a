-- ===== src/Base/Counts.antt =====
-- How often a number stands somewhere.
use Prim.Native.Nat.{ℕ, ◌+◌, ◌≤◌}
use mathlib.Core.Path.{◌≡◌, refl, sym}
use mathlib.Core.Logic.{◌≢◌}
use mathlib.Core.List.{List, [], ◌∷◌, ◌++◌}
use native.Mathlib.Omega.{arith}
use x_os_tmp.Base.Tests.{◌==◌, if◌then◌else◌, eq→==, ne→==}

-- How often z is the number x.
unfoldable pub one : ℕ → ℕ → ℕ
one z x = if x == z then 1 else 0

pub one_self : (x : ℕ) → one x x ≡ 1
unfolding one
one_self x = rw (eq→== x x refl)

pub one_eq : (z x : ℕ) → z ≡ x → one z x ≡ 1
one_eq z x e = rw e (one_self x)

pub ne_of_one : (z x : ℕ) → one z x ≡ 0 → z ≢ x
ne_of_one z x h e = absurd (omega (arith, one_eq z x e, h))

pub one_ne : (z x : ℕ) → z ≢ x → one z x ≡ 0
unfolding one
one_ne z x h = rw (ne→== x z (λ e. h (sym e)))

pub one_cases : (z x : ℕ) → one z x ≤ 1
unfolding one
one_cases z x = ground arith

-- How often z stands in a list.
unfoldable pub occurs : ℕ → List ℕ → ℕ
occurs z [] = 0
occurs z (x ∷ xs) = one z x + occurs z xs

pub occurs-append : (z : ℕ) (xs ys : List ℕ) → occurs z (xs ++ ys) ≡ occurs z xs + occurs z ys
unfolding occurs
occurs-append z [] ys = omega arith
occurs-append z (x ∷ xs) ys = omega (arith, occurs-append z xs ys)
