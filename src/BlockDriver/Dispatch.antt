-- ===== src/BlockDriver/Dispatch.antt =====
-- What is registered under a number is what the calls with that number come to.
use x_os_tmp.Base.{
  ℕ, zero, suc, ◌≡◌, ◌≢◌, refl, ap, List, [], ◌∷◌, Option, get_elem?, set, if_null, ℤ, negsuc,
}
use x_os_tmp.BlockDriver.{BlockDriver, Drivers, Transfer}

pub get_elem?-set_ne {ℓ} :
    {A : Type ℓ} (xs : List A) (n m : ℕ) (v : A) → m ≢ n → get_elem? (set xs n v) m ≡ get_elem? xs m
get_elem?-set_ne [] n m v h = refl
get_elem?-set_ne (y ∷ xs) zero zero v h = absurd (h refl)
get_elem?-set_ne (y ∷ xs) zero (suc m) v h = refl
get_elem?-set_ne (y ∷ xs) (suc n) zero v h = refl
get_elem?-set_ne (y ∷ xs) (suc n) (suc m) v h = get_elem?-set_ne xs n m v (λ e. h (ap suc e))

module _ {W : Type 0} (d : BlockDriver W) (main_driver : ℕ → ℕ) (ds : Drivers W) where
  -- What a call of a driver that may lack the function gives.
  abbrev pub run : Option (Transfer W) → ℕ → ℕ → ℤ → W → ℤ × W
  run f start count timeout w = if_null f (negsuc 0, w) (λ g. g start count timeout w)
