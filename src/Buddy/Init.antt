-- ===== src/Buddy/Init.antt =====
-- `init_buddy_module`: the area is free but for its first and its last block.
use x_os_tmp.Base.{
  ℕ, zero, suc, ◌+◌, ◌/◌, ◌^◌, ◌≤◌, ◌<◌, ◌≡◌, refl, ap, ◌∙◌, ◌%◌, ◌==◌, if◌then◌else◌, List, [],
  ◌∷◌, arith, Bool-cases, inl, inr, ==→eq, ==→ne, ne→==, none, one_ne, one_cases, occurs,
}
use x_os_tmp.Buddy.{Buddy, init_buddy_module, link_blocks, clear_heads}
use x_os_tmp.Buddy.Area.{Each, each-at}
use x_os_tmp.Buddy.Blocks.{Chain, Blocks, covers}
use x_os_tmp.Buddy.Links.{Back}
use x_os_tmp.Buddy.Pairs.{Paired, pair_bit}
use x_os_tmp.Base.Bits.{bit, bit-zero}

-- The numbers from k on, n of them.
abbrev pub from : ℕ → ℕ → List ℕ
from k zero = []
from k (suc n) = k ∷ from (k + 1) n

-- The blocks 1 to 14 of the highest level.
abbrev pub fresh_lists : ℕ → List ℕ
fresh_lists n = if n == 14 then from 1 14 else []

pub from-below : (n k z : ℕ) → z < k → occurs z (from k n) ≡ 0
unfolding occurs
from-below zero k z h = refl
from-below (suc n) k z h =
    omega (arith, one_ne z k (omega arith), from-below n (k + 1) z (omega arith))

pub from-once : (n k z : ℕ) → occurs z (from k n) ≤ 1
unfolding occurs
from-once zero k z = omega arith
from-once (suc n) k z = elim (Bool-cases (z == k)) [
  | inl e ↦ omega (arith, one_cases z k, from-below n (k + 1) z (omega (arith, ==→eq z k e)))
  | inr e ↦ omega (arith, one_ne z k (==→ne z k e), from-once n (k + 1) z)
]

from-bound : (n k z : ℕ) → 1 ≤ occurs z (from k n) → z < k + n
unfolding occurs
from-bound zero k z h = absurd (omega arith)
from-bound (suc n) k z h = elim (Bool-cases (z == k)) [
  | inl e ↦ omega (arith, ==→eq z k e)
  | inr e ↦ omega (arith, from-bound n (k + 1) z (omega (arith, h, one_ne z k (==→ne z k e))))
]

abbrev LevelChain : Buddy → ℕ → Type 0
LevelChain b n = Chain (b.next n) (b.list_head n) (fresh_lists n)

init-chains : (b : Buddy) → Each (LevelChain (init_buddy_module b)) 0 15
unfolding init_buddy_module link_blocks clear_heads
init-chains b = (
  refl,
  (
    refl,
    (
      refl,
      (
        refl,
        (
          refl,
          (
            refl,
            (
              refl,
              (
                refl,
                (
                  refl,
                  (
                    refl,
                    (
                      refl,
                      (
                        refl,
                        (
                          refl,
                          (
                            refl,
                            (
                              (
                                refl,
                                (
                                  refl,
                                  (
                                    refl,
                                    (
                                      refl,
                                      (
                                        refl,
                                        (
                                          refl,
                                          (
                                            refl,
                                            (
                                              refl,
                                              (refl, (refl, (refl, (refl, (refl, (refl, refl)))))),
                                            ),
                                          ),
                                        ),
                                      ),
                                    ),
                                  ),
                                ),
                              ),
                              tt,
                            ),
                          ),
                        ),
                      ),
                    ),
                  ),
                ),
              ),
            ),
          ),
        ),
      ),
    ),
  ),
)

-- Whatever the memory held, after init_buddy_module the list of the highest level holds its blocks
-- 1 to 14 in order, every other list is empty, and no page is covered twice.
pub init_buddy_module-Blocks : (b : Buddy) → Blocks (init_buddy_module b) fresh_lists
unfolding covers occurs
init_buddy_module-Blocks b = record {
  chain = λ n h.
      each-at (LevelChain (init_buddy_module b)) 15 0 n (init-chains b) (omega arith) (omega arith);
  inside = λ n p h i. elim (Bool-cases (n == 14)) [
    | inl e ↦ rw (==→eq n 14 e) (omega (arith, from-bound 14 1 p (rw e at i)))
    | inr e ↦ absurd (omega (arith, rw e at i))
  ];
  apart = λ g. omega (arith, from-once 14 1 (g / 2 ^ 14));
}

abbrev LevelBack : Buddy → ℕ → Type 0
LevelBack b n = Back (b.prev n) none (fresh_lists n)

init-backs : (b : Buddy) → Each (LevelBack (init_buddy_module b)) 0 15
unfolding init_buddy_module link_blocks clear_heads
init-backs b = (
  tt,
  (tt, (tt, (tt, (tt, (tt, (tt, (tt, (tt, (tt, (tt, (tt, (tt, (tt, (from_prev, tt)))))))))))))),
)
  where
    from_prev : Back ((init_buddy_module b).prev 14) none (from 1 14)
    from_prev = (
      refl,
      (
        refl,
        (
          refl,
          (
            refl,
            (refl, (refl, (refl, (refl, (refl, (refl, (refl, (refl, (refl, (refl, tt)))))))))),
          ),
        ),
      ),
    )

init-map : (b : Buddy) (n : ℕ) → n < 14 → (init_buddy_module b).map n ≡ b.map n
unfolding init_buddy_module link_blocks
init-map b n h = rw (ne→== n 14 (omega arith)) refl

-- On cleared memory the bits are those of the lists as well.
pub init_buddy_module-Paired :
    (b : Buddy) → ((n w : ℕ) → b.map n w ≡ 0) → Paired (init_buddy_module b) fresh_lists
unfolding occurs
init_buddy_module-Paired b z = record {
  back = λ n h.
      each-at (LevelBack (init_buddy_module b)) 15 0 n (init-backs b) (omega arith) (omega arith);
  bits = λ n i h. cleared n i h ∙ (rw (ne→== n 14 (omega arith)) refl);
}
  where
    cleared : (n i : ℕ) → n < 14 → pair_bit (init_buddy_module b) n i ≡ 0
    cleared n i h =
        ap (λ f. bit (i % 32) (f (i / 32))) (init-map b n h)
        ∙ ap (bit (i % 32)) (z n (i / 32))
        ∙ bit-zero (i % 32)
