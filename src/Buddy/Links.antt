-- ===== src/Buddy/Links.antt =====
-- A block in the middle of a doubly linked list: `unlink_block` takes it out.
use x_os_tmp.Base.{
  ℕ, ◌+◌, ◌≤◌, ◌≡◌, ◌≢◌, refl, sym, ap, subst, ◌∙◌, Option, none, some, List, [], ◌∷◌, ◌++◌, arith,
  set_at, set_at_self, set_at_ne, one, one_self, one_eq, occurs, occurs-append,
}
use x_os_tmp.Buddy.Blocks.{Chain, Chain-frame}

-- The way back: each block leads to the one before it.
abbrev pub Back : (ℕ → Option ℕ) → Option ℕ → List ℕ → Type 0
Back prev o [] = Unit
Back prev o (x ∷ xs) = (prev x ≡ o) × Back prev (some x) xs

pub Back-frame :
    (f g : ℕ → Option ℕ) (o : Option ℕ) (xs : List ℕ)
    → ((z : ℕ) → 1 ≤ occurs z xs → g z ≡ f z)
    → Back f o xs
    → Back g o xs
unfolding occurs
Back-frame f g o [] h c = tt
Back-frame f g o (x ∷ xs) h c = (
  h x (omega (arith, one_self x)) ∙ c.0,
  Back-frame f g (some x) xs (λ z m. h z (omega arith)) c.1,
)

-- The block before the end of a list, and the first one of a list.
abbrev pub last_or : Option ℕ → List ℕ → Option ℕ
last_or o [] = o
last_or o (x ∷ xs) = last_or (some x) xs

abbrev pub first_of : List ℕ → Option ℕ
first_of [] = none
first_of (x ∷ xs) = some x

pub Chain-first :
    (next : ℕ → Option ℕ) (o : Option ℕ) (xs : List ℕ) → Chain next o xs → o ≡ first_of xs
Chain-first next o [] c = c
Chain-first next o (x ∷ xs) c = c.0

-- One link is changed, or none.
abbrev pub set_some : (ℕ → Option ℕ) → Option ℕ → Option ℕ → ℕ → Option ℕ
set_some f none v = f
set_some f (some p) v = set_at f p v

pub set_some_ne : (f : ℕ → Option ℕ) (o v : Option ℕ) (z : ℕ) → o ≢ some z → set_some f o v z ≡ f z
set_some_ne f none v z h = refl
set_some_ne f (some p) v z h = set_at_ne f p v z (λ e. h (ap some (sym e)))

some-inj : (x y : ℕ) → some x ≡ some y → x ≡ y
some-inj x y w = ap (λ o. elim o [ none ↦ 0 | some z ↦ z ]) w

-- The last block of a list stands in it.
pub last_or-occurs : (x z : ℕ) (xs : List ℕ) → last_or (some x) xs ≡ some z → 1 ≤ occurs z (x ∷ xs)
unfolding occurs
last_or-occurs x z [] e = omega (arith, one_eq z x (sym (some-inj x z e)))
last_or-occurs x z (y ∷ xs) e = omega (arith, last_or-occurs y z xs e)

module _ (next prev : ℕ → Option ℕ) (q : ℕ) (ys : List ℕ) where
  -- What leads to the block and away from it.
  pub Chain-at :
      (o : Option ℕ) (xs : List ℕ) → Chain next o (xs ++ (q ∷ ys)) → Chain next (next q) ys
  Chain-at o [] c = c.1
  Chain-at o (x ∷ xs) c = Chain-at (next x) xs c.1

  pub Back-at : (o : Option ℕ) (xs : List ℕ) → Back prev o (xs ++ (q ∷ ys)) → prev q ≡ last_or o xs
  Back-at o [] c = c.0
  Back-at o (x ∷ xs) c = Back-at (some x) xs c.1

  -- The link of the block before is changed to the one behind.
  pub Chain-unlink :
      (o : Option ℕ) (x : ℕ) (xs : List ℕ)
      → ((z : ℕ) → occurs z ((x ∷ xs) ++ (q ∷ ys)) ≤ 1)
      → Chain next o ((x ∷ xs) ++ (q ∷ ys))
      → Chain (set_some next (last_or (some x) xs) (next q)) o ((x ∷ xs) ++ ys)
  unfolding occurs
  Chain-unlink o x [] d c = (
    c.0,
    rw (set_at_self next x (next q)) (
        Chain-frame next (set_at next x (next q)) (next q) ys
          (λ z m. set_at_ne next x (next q) z (λ e. omega (arith, d z, m, one_eq z x e))) c.1.1),
  )
  Chain-unlink o x (y ∷ xs) d c = (
    c.0,
    subst (λ w. Chain (set_some next (last_or (some y) xs) (next q)) w ((y ∷ xs) ++ ys))
        (sym (
          set_some_ne next (last_or (some y) xs) (next q) x (λ e.
            omega (arith, d x, one_self x, last_or-occurs y x xs e, occurs-append x xs (q ∷ ys)))))
        (Chain-unlink (next x) y xs (λ z. omega (arith, d z)) c.1),
  )

  -- The link back of the block behind is changed to the one before.
  pub Back-unlink :
      (o : Option ℕ) (xs : List ℕ)
      → ((z : ℕ) → occurs z (xs ++ (q ∷ ys)) ≤ 1)
      → Back prev o (xs ++ (q ∷ ys))
      → Back (set_some prev (first_of ys) (last_or o xs)) o (xs ++ ys)
  unfolding occurs
  Back-unlink o [] d c = behind ys d c.1
    where
      behind :
          (zs : List ℕ)
          → ((z : ℕ) → one z q + occurs z zs ≤ 1)
          → Back prev (some q) zs
          → Back (set_some prev (first_of zs) o) o zs
      behind [] d c = tt
      behind (z ∷ zs) d c = (
        set_at_self prev z o,
        Back-frame prev (set_at prev z o) (some z) zs
            (λ w m. set_at_ne prev z o w (λ e. omega (arith, d w, m, one_eq w z e))) c.1,
      )
  Back-unlink o (x ∷ xs) d c = (
    set_some_ne prev (first_of ys) (last_or (some x) xs) x
          (λ e. omega (arith, d x, one_self x, occurs-append x xs (q ∷ ys), first_occurs ys x e))
        ∙ c.0,
    Back-unlink (some x) xs (λ z. omega (arith, d z)) c.1,
  )
    where
      first_occurs : (zs : List ℕ) (z : ℕ) → first_of zs ≡ some z → 1 ≤ occurs z zs
      first_occurs [] z e = cc
      first_occurs (y ∷ zs) z e = omega (arith, one_eq z y (sym (some-inj y z e)))
