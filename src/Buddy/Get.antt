-- ===== src/Buddy/Get.antt =====
-- `get_address_area` takes one block from the free pages, and splits the block of a level above
-- where its own list is empty.
use x_os_tmp.Base.{
  ℕ, zero, suc, ◌+◌, ◌-◌, ◌*◌, ◌/◌, ◌^◌, ◌≤◌, ◌<◌, ◌≡◌, refl, sym, ap, subst, ◌∙◌, ◌==◌, Option,
  none, some, List, [], ◌∷◌, arith, Bool-cases, inl, inr, ==→eq, ==→ne, one, one_self, occurs,
}
use x_os_tmp.CircularList.Rings.{with_row}
use x_os_tmp.Buddy.{
  Buddy, buddy_dep, mem_start, toggle, pop, push, address_of, position_of, split, take_first,
  get_from, get_address_area,
}
use x_os_tmp.Buddy.Area.{each-at, address_of-Fits, position_of-Halves}
use x_os_tmp.Buddy.Blocks.{Chain, Blocks, Blocks-same, Blocks-pop, Blocks-push, covers, covers-row}

-- A block of 2^n pages has left the free ones, with every other page as free as before.
pub record Taken (n : ℕ) (t : ℕ → List ℕ) (address : ℕ) (b' : Buddy) : Type 0 where
  pub position : ℕ
  pub at : address ≡ mem_start + position * 2 ^ n * 4096
  pub inside : position < 2 ^ (18 - n)
  pub lists : ℕ → List ℕ
  pub blocks : Blocks b' lists
  pub pages : (g : ℕ) → covers 15 0 t g ≡ covers 15 0 lists g + one (g / 2 ^ n) position

-- The outcome of a request: NULL, nothing changed, and no free block of that size or above, or a
-- block.
abbrev pub Outcome : ℕ → Buddy → (ℕ → List ℕ) → Option ℕ × Buddy → Type 0
Outcome n b t (none, b') = (b' ≡ b) × ((m : ℕ) → n ≤ m → m < 15 → t m ≡ [])
Outcome n b t (some a, b') = Taken n t a b'

-- The pages of a block are those of its halves.
abbrev pub Splits : ℕ → Type 0
Splits n =
    (g q : ℕ) → one (g / 2 ^ (n + 1)) q ≡ one (g / 2 ^ n) (2 * q) + one (g / 2 ^ n) (2 * q + 1)

one-halves : (h q : ℕ) → one (h / 2) q ≡ one h (2 * q) + one h (2 * q + 1)
unfolding one
one-halves h q = ground arith

pub half_page : (n : ℕ) → n < 15 → (g : ℕ) → g / 2 ^ (n + 1) ≡ g / 2 ^ n / 2
half_page n h =
    each-at (λ n. (g : ℕ) → g / 2 ^ (n + 1) ≡ g / 2 ^ n / 2) 15 0 n
      (
        λ g. omega arith,
        (
          λ g. omega arith,
          (
            λ g. omega arith,
            (
              λ g. omega arith,
              (
                λ g. omega arith,
                (
                  λ g. omega arith,
                  (
                    λ g. omega arith,
                    (
                      λ g. omega arith,
                      (
                        λ g. omega arith,
                        (
                          λ g. omega arith,
                          (
                            λ g. omega arith,
                            (
                              λ g. omega arith,
                              (λ g. omega arith, (λ g. omega arith, (λ g. omega arith, tt))),
                            ),
                          ),
                        ),
                      ),
                    ),
                  ),
                ),
              ),
            ),
          ),
        ),
      )
      (omega arith) (omega arith)

pub splits : (n : ℕ) → n < 15 → Splits n
splits n h g q = ap (λ w. one w q) (half_page n h g) ∙ one-halves (g / 2 ^ n) q

take_first-Taken :
    (n p : ℕ) (b : Buddy) (t : ℕ → List ℕ) (ps : List ℕ)
    → n < 15
    → t n ≡ p ∷ ps
    → Blocks b t
    → Taken n t (address_of n p) (toggle n p (pop n p b))
unfolding occurs
take_first-Taken n p b t ps h e s = record {
  position = p;
  at = address_of-Fits n h p small;
  inside = small;
  lists = with_row t n ps;
  blocks =
      Blocks-same (pop n p b) (toggle n p (pop n p b)) (with_row t n ps) refl refl
        (Blocks-pop b t n p ps h e s);
  pages = λ g.
      let r = covers-row t n ps g h in
      omega (
        arith,
        subst
            (λ w.
              covers 15 0 (with_row t n ps) g + occurs (g / 2 ^ n) w
              ≡ covers 15 0 t g + occurs (g / 2 ^ n) ps)
            e r,
      );
}
  where
    small : p < 2 ^ (18 - n)
    small = s.inside n p h (rw e (omega (arith, one_self p)))

split-Taken :
    (n a : ℕ) (b b' : Buddy) (t : ℕ → List ℕ)
    → n < 15
    → Blocks b t
    → Taken (n + 1) t a b'
    → Taken n t a (push n (position_of n a + 1) (toggle n (position_of n a) b'))
unfolding occurs
split-Taken n a b b' t h s k = record {
  position = 2 * q;
  at = k.at ∙ ap (λ w. mem_start + w * 4096) half.2;
  inside = omega (arith, half.1);
  lists = with_row k.lists n ((2 * q + 1) ∷ k.lists n);
  blocks = rw (at_half) (
      Blocks-push (toggle n (2 * q) b') k.lists n (2 * q + 1) h half.1 free
        (Blocks-same b' (toggle n (2 * q) b') k.lists refl refl k.blocks));
  pages = λ g.
      omega (arith, covers-row k.lists n ((2 * q + 1) ∷ k.lists n) g h, k.pages g, splits n h g q);
}
  where
    q : ℕ
    q = k.position

    half :
        (position_of n (mem_start + q * 2 ^ (n + 1) * 4096) ≡ 2 * q)
        × (2 * q + 1 < 2 ^ (18 - n))
        × (q * 2 ^ (n + 1) ≡ 2 * q * 2 ^ n)
    half = position_of-Halves n h q k.inside

    at_half : position_of n a ≡ 2 * q
    at_half = ap (position_of n) k.at ∙ half.0

    free : (g : ℕ) → covers 15 0 k.lists g + one (g / 2 ^ n) (2 * q + 1) ≤ 1
    free g = omega (arith, s.apart g, k.pages g, splits n h g q)

-- What the level above gives is split.
above-Outcome :
    (n : ℕ) (b : Buddy) (t : ℕ → List ℕ) (r : Option ℕ × Buddy)
    → n < 15
    → Blocks b t
    → t n ≡ []
    → Outcome (n + 1) b t r
    → Outcome n b t (split n r)
above-Outcome n b t (none, b') h s e o = (
  o.0,
  λ m l k. elim (Bool-cases (m == n)) [
    | inl q ↦ ap t (==→eq m n q) ∙ e
    | inr q ↦ o.1 m (omega (arith, l, ==→ne m n q)) k
  ],
)
above-Outcome n b t (some a, b') h s e o = split-Taken n a b b' t h s o

take_first-Outcome :
    (n : ℕ) (b : Buddy) (t : ℕ → List ℕ) (r : Option ℕ × Buddy) (o : Option ℕ) (ps : List ℕ)
    → n < 15
    → Blocks b t
    → t n ≡ ps
    → Chain (b.next n) o ps
    → Outcome (n + 1) b t r
    → Outcome n b t (take_first n o b r)
take_first-Outcome n b t r none [] h s e c k = above-Outcome n b t r h s e k
take_first-Outcome n b t r none (x ∷ ps) h s e c k = cc
take_first-Outcome n b t r (some p) [] h s e c k = cc
take_first-Outcome n b t r (some p) (x ∷ ps) h s e c k =
    take_first-Taken n p b t ps h (e ∙ ap (λ w. w ∷ ps) (some_inj x p (sym c.0))) s
  where
    some_inj : (x p : ℕ) → some x ≡ some p → x ≡ p
    some_inj x p w = ap (λ o. elim o [ none ↦ 0 | some z ↦ z ]) w

pub get_from-Outcome :
    (f n : ℕ) (b : Buddy) (t : ℕ → List ℕ)
    → n + f ≡ 15
    → Blocks b t
    → Outcome n b t (get_from f n b)
unfolding get_from
get_from-Outcome zero n b t e s = (refl, λ m l k. absurd (omega (arith, e, l, k)))
get_from-Outcome (suc f) n b t e s =
    take_first-Outcome n b t (get_from f (n + 1) b) (b.list_head n) (t n) (omega (arith, e)) s refl
      (s.chain n (omega (arith, e))) (get_from-Outcome f (n + 1) b t (omega (arith, e)) s)

-- When the free lists of the buddy allocator lie in the area and cover no page twice, and n is at
-- most 15, get_address_area answers NULL only if no list from n on has a block, and then changes
-- nothing; else it answers the address of a block of 2^n pages in the area, a multiple of its size
-- from MEM_START on, whose pages were free and are not free any more, while every other page is as
-- free as before, and the free lists still cover no page twice.
pub get_address_area-Outcome :
    (n : ℕ) (b : Buddy) (t : ℕ → List ℕ)
    → n ≤ 15
    → Blocks b t
    → Outcome n b t (get_address_area n b)
unfolding get_address_area
get_address_area-Outcome n b t h s = get_from-Outcome (buddy_dep - n) n b t (omega (arith, h)) s
