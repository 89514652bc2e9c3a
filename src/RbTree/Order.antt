-- ===== src/RbTree/Order.antt =====
-- The order of the keys, and the insertion into an ordered list that the trees stand for.
use x_os_tmp.Base.{
  ℕ, suc, ◌≡◌, refl, ap, if◌then◌else◌, Bool, true, false, List, [], ◌∷◌, ◌++◌, length, arith,
  Bool-cases, inl, inr, All, All-append_left, All-append_right, All-imp,
}

-- A test "less" of two nodes, whose ties are an equivalence.
pub record Weak (less : ℕ → ℕ → Bool) : Type 0 where
  pub asym : (a b : ℕ) → less a b ≡ true → less b a ≡ false
  pub up : (a b c : ℕ) → less a b ≡ true → less c b ≡ false → less a c ≡ true

module _ (less : ℕ → ℕ → Bool) where
  -- No element is less than one before it.
  abbrev pub Sorted : List ℕ → Type 0
  Sorted [] = Unit
  Sorted (x ∷ xs) = All (λ y. less y x ≡ false) xs × Sorted xs

  -- The node stands before the first element that it is less than.
  unfoldable pub insert_by : ℕ → List ℕ → List ℕ
  insert_by n [] = n ∷ []
  insert_by n (x ∷ xs) = if less n x then n ∷ x ∷ xs else x ∷ insert_by n xs

  pub length-insert_by : (n : ℕ) (xs : List ℕ) → length (insert_by n xs) ≡ suc (length xs)
  unfolding insert_by
  length-insert_by n [] = refl
  length-insert_by n (x ∷ xs) = elim (Bool-cases (less n x)) [
    | inl e ↦ rw e refl
    | inr e ↦ rw e (omega (arith, length-insert_by n xs))
  ]

  insert_by-All : (P : ℕ → Type 0) (n : ℕ) (xs : List ℕ) → P n → All P xs → All P (insert_by n xs)
  unfolding insert_by
  insert_by-All P n [] h a = (h, tt)
  insert_by-All P n (x ∷ xs) h a = elim (Bool-cases (less n x)) [
    | inl e ↦ rw e (h, a)
    | inr e ↦ rw e (a.0, insert_by-All P n xs h a.1)
  ]

  pub insert_by-Sorted : Weak less → (n : ℕ) (xs : List ℕ) → Sorted xs → Sorted (insert_by n xs)
  unfolding insert_by
  insert_by-Sorted w n [] h = (tt, tt)
  insert_by-Sorted w n (x ∷ xs) h = elim (Bool-cases (less n x)) [
    | inl e ↦ rw e ((w.asym n x e, All-imp xs (λ y k. w.asym n y (w.up n x y e k)) h.0), h)
    | inr e ↦ rw e (insert_by-All (λ y. less y x ≡ false) n xs e h.0, insert_by-Sorted w n xs h.1)
  ]

  pub insert_by-left :
      (n : ℕ) (xs : List ℕ) (x : ℕ) (ys : List ℕ)
      → less n x ≡ true
      → insert_by n (xs ++ (x ∷ ys)) ≡ insert_by n xs ++ (x ∷ ys)
  unfolding insert_by
  insert_by-left n [] x ys h = rw h refl
  insert_by-left n (y ∷ xs) x ys h = elim (Bool-cases (less n y)) [
    | inl e ↦ rw e refl
    | inr e ↦ rw e (ap (λ w. y ∷ w) (insert_by-left n xs x ys h))
  ]

  pub insert_by-right :
      Weak less
      → (n : ℕ) (xs : List ℕ) (x : ℕ) (ys : List ℕ) → Sorted (xs ++ (x ∷ ys))
      → less n x ≡ false
      → insert_by n (xs ++ (x ∷ ys)) ≡ xs ++ (x ∷ insert_by n ys)
  unfolding insert_by
  insert_by-right w n [] x ys s h = rw h refl
  insert_by-right w n (y ∷ xs) x ys s h = elim (Bool-cases (less n y)) [
    | inl e ↦ cc (w.up n y x e (All-append_right (λ z. less z y ≡ false) xs (x ∷ ys) s.0).0, h)
    | inr e ↦ rw e (ap (λ z. y ∷ z) (insert_by-right w n xs x ys s.1 h))
  ]

  pub Sorted-left : (xs ys : List ℕ) → Sorted (xs ++ ys) → Sorted xs
  Sorted-left [] ys s = tt
  Sorted-left (x ∷ xs) ys s =
      (All-append_left (λ z. less z x ≡ false) xs ys s.0, Sorted-left xs ys s.1)

  pub Sorted-right : (xs ys : List ℕ) → Sorted (xs ++ ys) → Sorted ys
  Sorted-right [] ys s = s
  Sorted-right (x ∷ xs) ys s = Sorted-right xs ys s.1

  pub Sorted-before :
      (xs : List ℕ) (x : ℕ) (ys : List ℕ) → Sorted (xs ++ (x ∷ ys)) → All (λ y. less x y ≡ false) xs
  Sorted-before [] x ys s = tt
  Sorted-before (y ∷ xs) x ys s =
      ((All-append_right (λ z. less z y ≡ false) xs (x ∷ ys) s.0).0, Sorted-before xs x ys s.1)
