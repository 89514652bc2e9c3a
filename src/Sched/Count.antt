-- ===== src/Sched/Count.antt =====
-- The number of processes on the sixteen levels of a queue.
use x_os_tmp.Base.{
  ℕ, zero, suc, ◌+◌, ◌*◌, ◌<◌, ◌≤◌, ◌≡◌, ◌==◌, List, length, arith, if◌then◌else◌, Bool-cases, inl,
  inr, ne→==, ==→eq, ==→ne, ltb, ltb→lt, ltb→le, length-append, ◌≢◌, ap, ◌++◌, ◌∷◌, [],
}
use x_os_tmp.CircularList.Rings.{with_row}

-- The lengths of the rows from `base` on, `n` of them.
unfoldable pub total : ℕ → ℕ → (ℕ → List ℕ) → ℕ
total zero base t = 0
total (suc n) base t = length (t base) + total n (base + 1) t

pub total-with_row_out :
    (n base : ℕ) (t : ℕ → List ℕ) (i : ℕ) (ps : List ℕ)
    → i < base
    → total n base (with_row t i ps) ≡ total n base t
unfolding total
total-with_row_out zero base t i ps h = omega arith
total-with_row_out (suc n) base t i ps h =
    rw (ne→== base i (omega arith))
      (omega (arith, total-with_row_out n (base + 1) t i ps (omega arith)))

pub total-with_row_above :
    (n base : ℕ) (t : ℕ → List ℕ) (i : ℕ) (ps : List ℕ)
    → base + n ≤ i
    → total n base (with_row t i ps) ≡ total n base t
unfolding total
total-with_row_above zero base t i ps h = omega arith
total-with_row_above (suc n) base t i ps h =
    rw (ne→== base i (omega arith))
      (omega (arith, total-with_row_above n (base + 1) t i ps (omega arith)))

pub total-with_row :
    (n base : ℕ) (t : ℕ → List ℕ) (i : ℕ) (ps : List ℕ)
    → base ≤ i
    → i < base + n
    → total n base (with_row t i ps) + length (t i) ≡ total n base t + length ps
unfolding total
total-with_row zero base t i ps h k = absurd (omega arith)
total-with_row (suc n) base t i ps h k = elim (Bool-cases (base == i)) [
  | inl e ↦
      rw (e, ==→eq base i e) (omega (arith, total-with_row_out n (i + 1) t i ps (omega arith)))
  | inr e ↦
      let ne = ==→ne base i e in
      rw e (omega (arith, total-with_row n (base + 1) t i ps (omega arith) (omega arith)))
]

-- A change of one level of the queue `q`, as the count of the queue `r` sees it.
pub total-change :
    (q r i : ℕ) (ps : List ℕ) (t : ℕ → List ℕ)
    → i < 16
    → total 16 (16 * r) (with_row t (16 * q + i) ps)
        + (if r == q then length (t (16 * q + i)) else 0)
      ≡ total 16 (16 * r) t + (if r == q then length ps else 0)
total-change q r i ps t h = elim (Bool-cases (r == q)) [
  | inl e ↦
      rw (e, ==→eq r q e) (total-with_row 16 (16 * q) t (16 * q + i) ps (omega arith) (omega arith))
  | inr e ↦ rw e (away (==→ne r q e))
]
  where
    away : r ≢ q → total 16 (16 * r) (with_row t (16 * q + i) ps) + 0 ≡ total 16 (16 * r) t + 0
    away ne = elim (Bool-cases (ltb q r)) [
      | inl b ↦
          omega
            (arith, total-with_row_out 16 (16 * r) t (16 * q + i) ps (omega (arith, ltb→lt q r b)))
      | inr b ↦
          omega (
            arith,
            total-with_row_above 16 (16 * r) t (16 * q + i) ps (omega (arith, ltb→le q r b)),
          )
    ]

pub total-grow :
    (q r i p : ℕ) (t : ℕ → List ℕ)
    → i < 16
    → total 16 (16 * r) (with_row t (16 * q + i) (t (16 * q + i) ++ (p ∷ [])))
      ≡ total 16 (16 * r) t + (if r == q then 1 else 0)
total-grow q r i p t h =
    let c = total-change q r i (t (16 * q + i) ++ (p ∷ [])) t h in
    let n = length-append (t (16 * q + i)) (p ∷ []) in ground (arith, c, n)

pub total-shrink :
    (q r i j : ℕ) (xs : List ℕ) (p : ℕ) (ys : List ℕ) (t : ℕ → List ℕ)
    → i < 16
    → j ≡ 16 * q + i
    → t j ≡ xs ++ (p ∷ ys)
    → total 16 (16 * r) (with_row t j (xs ++ ys)) + (if r == q then 1 else 0) ≡ total 16 (16 * r) t
total-shrink q r i j xs p ys t h at e =
    let c = total-change q r i (xs ++ ys) t h in
    let n = length-append xs (p ∷ ys) in
    let m = length-append xs ys in
    let e' : t (16 * q + i) ≡ xs ++ (p ∷ ys) = rw (← at) e in
    let w = ap length e' in rw at (ground (arith, c, n, m, w))
