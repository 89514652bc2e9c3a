-- ===== src/RbTree/Keys.antt =====
-- The two tests "less" are orders: that of the pids as numbers of `int`, and that of the blocks.
use x_os_tmp.Base.{
  ℕ, ◌^◌, ◌≤◌, ◌<◌, ◌≡◌, ◌⊎◌, sym, ◌==◌, true, false, arith, eq→==, ne→==, Bool-cases, inl, inr,
  lt→ltb, le→ltb, ltb→lt, ltb→le, ==→eq, ==→ne,
}
use x_os_tmp.Kernel.{long_lt}
use x_os_tmp.RbTree.Order.{Weak}
use x_os_tmp.RbTree.Keyed.{pid_less, blk_less, blk_less2}

pub pid_less-Weak : (pid : ℕ → ℕ) → Weak (pid_less pid)
pid_less-Weak pid = record {
  asym = λ a b h. le→ltb _ _ (omega (arith, ltb→lt _ _ h));
  up = λ a b c h k. lt→ltb _ _ (omega (arith, ltb→lt _ _ h, ltb→le _ _ k));
}

-- The two parts of the order of the blocks.
pub blk_less-lt : (d b d' b' : ℕ) → blk_less d b d' b' ≡ true → (d < d') ⊎ ((d ≡ d') × (b < b'))
blk_less-lt d b d' b' h = elim (Bool-cases (d == d')) [
  | inl e ↦ inr (==→eq d d' e, ltb→lt b b' (rw e at h))
  | inr e ↦ inl (ltb→lt d d' (rw e at h))
]

pub blk_less-ge : (d b d' b' : ℕ) → blk_less d b d' b' ≡ false → (d' < d) ⊎ ((d ≡ d') × (b' ≤ b))
blk_less-ge d b d' b' h = elim (Bool-cases (d == d')) [
  | inl e ↦ inr (==→eq d d' e, ltb→le b b' (rw e at h))
  | inr e ↦ inl (omega (arith, ltb→le d d' (rw e at h), ==→ne d d' e))
]

pub blk_less-of_lt : (d b d' b' : ℕ) → (d < d') ⊎ ((d ≡ d') × (b < b')) → blk_less d b d' b' ≡ true
blk_less-of_lt d b d' b' (inl h) = rw (ne→== d d' (omega arith)) (lt→ltb d d' h)
blk_less-of_lt d b d' b' (inr h) = rw (eq→== d d' h.0) (lt→ltb b b' h.1)

pub blk_less-of_ge : (d b d' b' : ℕ) → (d' < d) ⊎ ((d ≡ d') × (b' ≤ b)) → blk_less d b d' b' ≡ false
blk_less-of_ge d b d' b' (inl h) = rw (ne→== d d' (omega arith)) (le→ltb d d' (omega arith))
blk_less-of_ge d b d' b' (inr h) = rw (eq→== d d' h.0) (le→ltb b b' h.1)

pub blk_less2-Weak : (types numbers : ℕ → ℕ) → Weak (blk_less2 types numbers)
blk_less2-Weak types numbers = record {
  asym = λ a b h.
      blk_less-of_ge _ _ _ _
        (asym_of (types a) (numbers a) (types b) (numbers b) (blk_less-lt _ _ _ _ h));
  up = λ a b c h k. blk_less-of_lt _ _ _ _ (
      up_of (types a) (numbers a) (types b) (numbers b) (types c) (numbers c)
        (blk_less-lt _ _ _ _ h) (blk_less-ge _ _ _ _ k));
}
  where
    asym_of : (d b d' b' : ℕ) → (d < d') ⊎ ((d ≡ d') × (b < b')) → (d < d') ⊎ ((d' ≡ d) × (b ≤ b'))
    asym_of d b d' b' (inl h) = inl h
    asym_of d b d' b' (inr h) = inr (sym h.0, omega (arith, h.1))

    up_of :
        (d b d' b' e q : ℕ)
        → (d < d') ⊎ ((d ≡ d') × (b < b'))
        → (d' < e) ⊎ ((e ≡ d') × (b' ≤ q))
        → (d < e) ⊎ ((d ≡ e) × (b < q))
    up_of d b d' b' e q (inl h) (inl k) = inl (omega arith)
    up_of d b d' b' e q (inl h) (inr k) = inl (omega (arith, k.0))
    up_of d b d' b' e q (inr h) (inl k) = inl (omega (arith, h.0))
    up_of d b d' b' e q (inr h) (inr k) = inr (omega (arith, h.0, k.0), omega (arith, h.1, k.1))

-- Two numbers of `int` with no order between them are one.
pub long_lt-eq :
    (a b : ℕ) → a < 2 ^ 32 → b < 2 ^ 32 → long_lt a b ≡ false → long_lt b a ≡ false → a ≡ b
long_lt-eq a b ha hb h k = omega (arith, ltb→le _ _ h, ltb→le _ _ k)
