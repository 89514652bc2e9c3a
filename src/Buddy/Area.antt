-- ===== src/Buddy/Area.antt =====
-- The blocks that `get_address_area` hands out lie in the area of the kernel, at a multiple of their
-- size.
use x_os_tmp.Base.{
  ℕ, zero, suc, ◌+◌, ◌-◌, ◌*◌, ◌^◌, ◌≤◌, ◌<◌, ◌≡◌, sym, subst, ◌==◌, arith, Bool-cases, inl, inr,
  ==→eq, ==→ne,
}
use x_os_tmp.Buddy.{mem_start, address_of, position_of}

-- Each number from `base` on, `n` of them.
abbrev pub Each : (ℕ → Type 0) → ℕ → ℕ → Type 0
Each P base zero = Unit
Each P base (suc n) = P base × Each P (base + 1) n

pub each-at : (P : ℕ → Type 0) (n base i : ℕ) → Each P base n → base ≤ i → i < base + n → P i
each-at P zero base i e h k = absurd (omega (arith, h, k))
each-at P (suc n) base i e h k = elim (Bool-cases (i == base)) [
  | inl q ↦ subst P (sym (==→eq i base q)) e.0
  | inr q ↦ each-at P n (base + 1) i e.1 (omega (arith, h, ==→ne i base q)) (omega (arith, k))
]

-- The address of a block does not wrap.
abbrev pub Fits : ℕ → Type 0
Fits n = (pos : ℕ) → pos < 2 ^ (18 - n) → address_of n pos ≡ mem_start + pos * 2 ^ n * 4096

pub address_of-Fits : (n : ℕ) → n < 15 → Fits n
address_of-Fits n h =
    each-at Fits 15 0 n
      (
        (λ pos b. omega arith),
        (
          (λ pos b. omega arith),
          (
            (λ pos b. omega arith),
            (
              (λ pos b. omega arith),
              (
                (λ pos b. omega arith),
                (
                  (λ pos b. omega arith),
                  (
                    (λ pos b. omega arith),
                    (
                      (λ pos b. omega arith),
                      (
                        (λ pos b. omega arith),
                        (
                          (λ pos b. omega arith),
                          (
                            (λ pos b. omega arith),
                            (
                              (λ pos b. omega arith),
                              (
                                (λ pos b. omega arith),
                                ((λ pos b. omega arith), ((λ pos b. omega arith), tt)),
                              ),
                            ),
                          ),
                        ),
                      ),
                    ),
                  ),
                ),
              ),
            ),
          ),
        ),
      )
      (omega arith) (omega arith)

-- The halves of a block of the level above.
abbrev pub Halves : ℕ → Type 0
Halves n =
    (q : ℕ)
    → q < 2 ^ (18 - (n + 1))
    → (position_of n (mem_start + q * 2 ^ (n + 1) * 4096) ≡ 2 * q)
      × (2 * q + 1 < 2 ^ (18 - n))
      × (q * 2 ^ (n + 1) ≡ 2 * q * 2 ^ n)

pub position_of-Halves : (n : ℕ) → n < 15 → Halves n
position_of-Halves n h =
    each-at Halves 15 0 n
      (
        (λ q b. (omega arith, omega arith, omega arith)),
        (
          (λ q b. (omega arith, omega arith, omega arith)),
          (
            (λ q b. (omega arith, omega arith, omega arith)),
            (
              (λ q b. (omega arith, omega arith, omega arith)),
              (
                (λ q b. (omega arith, omega arith, omega arith)),
                (
                  (λ q b. (omega arith, omega arith, omega arith)),
                  (
                    (λ q b. (omega arith, omega arith, omega arith)),
                    (
                      (λ q b. (omega arith, omega arith, omega arith)),
                      (
                        (λ q b. (omega arith, omega arith, omega arith)),
                        (
                          (λ q b. (omega arith, omega arith, omega arith)),
                          (
                            (λ q b. (omega arith, omega arith, omega arith)),
                            (
                              (λ q b. (omega arith, omega arith, omega arith)),
                              (
                                (λ q b. (omega arith, omega arith, omega arith)),
                                (
                                  (λ q b. (omega arith, omega arith, omega arith)),
                                  ((λ q b. (omega arith, omega arith, omega arith)), tt),
                                ),
                              ),
                            ),
                          ),
                        ),
                      ),
                    ),
                  ),
                ),
              ),
            ),
          ),
        ),
      )
      (omega arith) (omega arith)
