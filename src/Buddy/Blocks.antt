-- ===== src/Buddy/Blocks.antt =====
-- The lists of free blocks, and the pages that they cover.
use x_os_tmp.Base.{
  ℕ, zero, suc, ◌+◌, ◌-◌, ◌*◌, ◌/◌, ◌^◌, ◌≤◌, ◌<◌, ◌≡◌, ◌≢◌, refl, subst, ◌==◌, Option, none, some,
  List, [], ◌∷◌, arith, Bool-cases, inl, inr, set_at, set_at_self, set_at_ne, ==→eq, ==→ne, ne→==,
  one, one_self, one_ne, occurs,
}
use x_os_tmp.CircularList.Rings.{with_row}
use x_os_tmp.Buddy.{Buddy, set_in, set_prev, pop, push}
use x_os_tmp.Buddy.Area.{each-at}

-- The list from the pointer `o` on.
abbrev pub Chain : (ℕ → Option ℕ) → Option ℕ → List ℕ → Type 0
Chain next o [] = o ≡ none
Chain next o (x ∷ xs) = (o ≡ some x) × Chain next (next x) xs

pub Chain-frame :
    (f g : ℕ → Option ℕ) (o : Option ℕ) (xs : List ℕ)
    → ((z : ℕ) → 1 ≤ occurs z xs → g z ≡ f z)
    → Chain f o xs
    → Chain g o xs
unfolding occurs
Chain-frame f g o [] h c = c
Chain-frame f g o (x ∷ xs) h c = (
  c.0,
  rw (h x (omega (arith, one_self x))) (Chain-frame f g (f x) xs (λ z m. h z (omega arith)) c.1),
)

-- How many blocks of the `n` levels from `base` on the page g is in.
unfoldable pub covers : ℕ → ℕ → (ℕ → List ℕ) → ℕ → ℕ
covers zero base t g = 0
covers (suc n) base t g = occurs (g / 2 ^ base) (t base) + covers n (base + 1) t g

covers-out :
    (n base : ℕ) (t : ℕ → List ℕ) (i : ℕ) (ps : List ℕ) (g : ℕ)
    → i < base
    → covers n base (with_row t i ps) g ≡ covers n base t g
unfolding covers
covers-out zero base t i ps g h = refl
covers-out (suc n) base t i ps g h =
    rw (ne→== base i (omega arith)) (omega (arith, covers-out n (base + 1) t i ps g (omega arith)))

covers-in :
    (n base : ℕ) (t : ℕ → List ℕ) (i : ℕ) (ps : List ℕ) (g : ℕ)
    → base ≤ i
    → i < base + n
    → covers n base (with_row t i ps) g + occurs (g / 2 ^ i) (t i)
      ≡ covers n base t g + occurs (g / 2 ^ i) ps
unfolding covers
covers-in zero base t i ps g h k = absurd (omega arith)
covers-in (suc n) base t i ps g h k = elim (Bool-cases (base == i)) [
  | inl e ↦
      let same = covers-out n (base + 1) t i ps g (omega (arith, ==→eq base i e)) in
      rw (e, ==→eq base i e)
        (omega (
          arith,
          subst (λ w. covers n (w + 1) (with_row t i ps) g ≡ covers n (w + 1) t g) (==→eq base i e)
              same,
        ))
  | inr e ↦ rw e (
      omega
        (arith, covers-in n (base + 1) t i ps g (omega (arith, h, ==→ne base i e)) (omega arith)))
]

-- The lists of all levels, whose blocks lie in the area, with no page in two of them.
pub record Blocks (b : Buddy) (t : ℕ → List ℕ) : Type 0 where
  pub chain : (n : ℕ) → n < 15 → Chain (b.next n) (b.list_head n) (t n)
  pub inside : (n p : ℕ) → n < 15 → 1 ≤ occurs p (t n) → p < 2 ^ (18 - n)
  pub apart : (g : ℕ) → covers 15 0 t g ≤ 1

covers-member :
    (n base : ℕ) (t : ℕ → List ℕ) (i g : ℕ)
    → base ≤ i
    → i < base + n
    → occurs (g / 2 ^ i) (t i) ≤ covers n base t g
unfolding covers
covers-member zero base t i g h k = absurd (omega arith)
covers-member (suc n) base t i g h k = elim (Bool-cases (base == i)) [
  | inl e ↦ rw (==→eq base i e) (omega arith)
  | inr e ↦
      omega
        (arith, covers-member n (base + 1) t i g (omega (arith, h, ==→ne base i e)) (omega arith))
]

pub covers-row :
    (t : ℕ → List ℕ) (n : ℕ) (ps : List ℕ) (g : ℕ)
    → n < 15
    → covers 15 0 (with_row t n ps) g + occurs (g / 2 ^ n) (t n)
      ≡ covers 15 0 t g + occurs (g / 2 ^ n) ps
covers-row t n ps g h = covers-in 15 0 t n ps g (omega arith) (omega arith)

abbrev FirstPage : ℕ → Type 0
FirstPage n = (p : ℕ) → p * 2 ^ n / 2 ^ n ≡ p

first_page : (n : ℕ) → n < 15 → FirstPage n
first_page n h =
    each-at FirstPage 15 0 n
      (
        λ p. omega arith,
        (
          λ p. omega arith,
          (
            λ p. omega arith,
            (
              λ p. omega arith,
              (
                λ p. omega arith,
                (
                  λ p. omega arith,
                  (
                    λ p. omega arith,
                    (
                      λ p. omega arith,
                      (
                        λ p. omega arith,
                        (
                          λ p. omega arith,
                          (
                            λ p. omega arith,
                            (
                              λ p. omega arith,
                              (λ p. omega arith, (λ p. omega arith, (λ p. omega arith, tt))),
                            ),
                          ),
                        ),
                      ),
                    ),
                  ),
                ),
              ),
            ),
          ),
        ),
      )
      (omega arith) (omega arith)

-- A block that covers no free page is not in its list.
pub block_absent :
    (t : ℕ → List ℕ) (n p : ℕ)
    → n < 15
    → ((g : ℕ) → covers 15 0 t g + one (g / 2 ^ n) p ≤ 1)
    → occurs p (t n) ≡ 0
block_absent t n p h free =
    let e = first_page n h p in
    let m = covers-member 15 0 t n (p * 2 ^ n) (omega arith) (omega arith) in
    let f = free (p * 2 ^ n) in omega (arith, rw e at m, rw e at f, one_self p)

-- No block is twice in its list.
pub block_once : (b : Buddy) (t : ℕ → List ℕ) (n p : ℕ) → n < 15 → Blocks b t → occurs p (t n) ≤ 1
block_once b t n p h s =
    let e = first_page n h p in
    let m = covers-member 15 0 t n (p * 2 ^ n) (omega arith) (omega arith) in
    omega (arith, rw e at m, s.apart (p * 2 ^ n))

pub set_prev-next : (n : ℕ) (o v : Option ℕ) (b : Buddy) → (set_prev n o v b).next ≡ b.next
set_prev-next n none v b = refl
set_prev-next n (some q) v b = refl

pub set_prev-list_head :
    (n : ℕ) (o v : Option ℕ) (b : Buddy) → (set_prev n o v b).list_head ≡ b.list_head
set_prev-list_head n none v b = refl
set_prev-list_head n (some q) v b = refl

-- Only the links and the heads count.
pub Blocks-same :
    (b b' : Buddy) (t : ℕ → List ℕ)
    → b'.next ≡ b.next
    → b'.list_head ≡ b.list_head
    → Blocks b t
    → Blocks b' t
Blocks-same b b' t h k s = record {
  chain = λ n m. rw (h, k) (s.chain n m);
  inside = s.inside;
  apart = s.apart;
}

-- The first block of a list is taken off.
pub Blocks-pop :
    (b : Buddy) (t : ℕ → List ℕ) (n p : ℕ) (ps : List ℕ)
    → n < 15
    → t n ≡ p ∷ ps
    → Blocks b t
    → Blocks (pop n p b) (with_row t n ps)
unfolding occurs
Blocks-pop b t n p ps h e s = record {
  chain = λ m k.
      rw
        (
          set_prev-next n (b.next n p) none
              (record b { list_head = set_at b.list_head n (b.next n p) }),
          set_prev-list_head n (b.next n p) none
              (record b { list_head = set_at b.list_head n (b.next n p) }),
        )
        (elim (Bool-cases (m == n)) [
          | inl q ↦ rw (q, ==→eq m n q) (subst (Chain (b.next n) (b.list_head n)) e (s.chain n h)).1
          | inr q ↦ rw q (s.chain m k)
        ]);
  inside = λ m z k i. elim (Bool-cases (m == n)) [
    | inl q ↦
        let i' : 1 ≤ occurs z ps = rw q at i in
        rw (==→eq m n q) (s.inside n z h (rw e (omega arith)))
    | inr q ↦ s.inside m z k (rw q at i)
  ];
  apart = λ g.
      let r = covers-row t n ps g h in
      omega (
        arith,
        s.apart g,
        subst
            (λ w.
              covers 15 0 (with_row t n ps) g + occurs (g / 2 ^ n) w
              ≡ covers 15 0 t g + occurs (g / 2 ^ n) ps)
            e r,
      );
}

-- A block that covers no free page is put at the front of a list.
pub Blocks-push :
    (b : Buddy) (t : ℕ → List ℕ) (n p : ℕ)
    → n < 15
    → p < 2 ^ (18 - n)
    → ((g : ℕ) → covers 15 0 t g + one (g / 2 ^ n) p ≤ 1)
    → Blocks b t
    → Blocks (push n p b) (with_row t n (p ∷ t n))
unfolding occurs
Blocks-push b t n p h small free s = record {
  chain = λ m k.
      rw
        (
          set_prev-next n (b.list_head n) (some p) b₁,
          set_prev-list_head n (b.list_head n) (some p) b₁,
        )
        (elim (Bool-cases (m == n)) [
          | inl q ↦ rw q (
            refl,
            rw (set_at_self (b.next n) p (b.list_head n)) (
                Chain-frame (b.next n) (set_at (b.next n) p (b.list_head n)) (b.list_head n) (t n)
                  (λ z i. set_at_ne (b.next n) p (b.list_head n) z (λ w. apart z i w))
                  (s.chain n h)),
          )
          | inr q ↦ rw q (s.chain m k)
        ]);
  inside = λ m z k i. elim (Bool-cases (m == n)) [
    | inl q ↦
        let i' : 1 ≤ one z p + occurs z (t n) = rw (q) at i in rw (==→eq m n q) (inside_of z i')
    | inr q ↦ s.inside m z k (rw q at i)
  ];
  apart = λ g. omega (arith, covers-row t n (p ∷ t n) g h, free g);
}
  where
    b₁ : Buddy
    b₁ = record b { next = set_in b.next n p (b.list_head n); prev = set_in b.prev n p none }

    apart : (z : ℕ) → 1 ≤ occurs z (t n) → z ≢ p
    apart z i e = omega (arith, block_absent t n p h free, subst (λ w. 1 ≤ occurs w (t n)) e i)

    inside_of : (z : ℕ) → 1 ≤ one z p + occurs z (t n) → z < 2 ^ (18 - n)
    inside_of z i = elim (Bool-cases (z == p)) [
      | inl q ↦ rw (==→eq z p q) small
      | inr q ↦ s.inside n z h (omega (arith, i, one_ne z p (==→ne z p q)))
    ]
