-- ===== src/Tty/Text.antt =====
-- Text that fits on the screen stands there, in the current colour, and moves the cursor behind it.
use x_os_tmp.Base.{
  ℕ, ◌+◌, ◌*◌, ◌<◌, ◌≡◌, ◌≢◌, refl, ◌∙◌, ap, List, [], ◌∷◌, length, arith, All, ne→==, lt→ltb, ok,
  set_at, set_at_ne, set_at_self,
}
use x_os_tmp.Kernel.{Kernel}
use x_os_tmp.Kernel.Lock.{CanLock}
use x_os_tmp.Tty.{
  Tty, normal, scroll, put_char, put_cell, write_in, write_char, write_from, breathe,
}
use x_os_tmp.Tty.Bounds.{breathe-ok}

-- A byte with no meaning of its own.
abbrev pub Printable : ℕ → Type 0
Printable c = (13 < c) × (c ≢ 27)

write_in-Printable :
    (c : ℕ) (t : Tty)
    → Printable c
    → t.pos + 1 < 2000
    → write_in normal c t
      ≡ ok (record t { screen = put_cell t.pos c t.color t.screen; pos = t.pos + 1 })
unfolding write_in put_char scroll
write_in-Printable c t p h =
    rw
      (
        ne→== c 27 p.1,
        ne→== c 10 (omega (arith, p.0)),
        ne→== c 8 (omega (arith, p.0)),
        ne→== c 13 (omega (arith, p.0)),
        ne→== c 0 (omega (arith, p.0)),
        ne→== c 9 (omega (arith, p.0)),
        ne→== c 11 (omega (arith, p.0)),
        ne→== c 12 (omega (arith, p.0)),
        lt→ltb (t.pos + 1) 2000 h,
      )
      refl

-- The bytes `cs` in colour, from cell `at` on.
abbrev pub Shows : (ℕ → ℕ) → ℕ → ℕ → List ℕ → Type 0
Shows screen color at [] = Unit
Shows screen color at (c ∷ cs) =
    (screen (2 * at) ≡ c) × (screen (2 * at + 1) ≡ color) × Shows screen color (at + 1) cs

pub record Written (cs : List ℕ) (t t' : Tty) : Type 0 where
  pub pos : t'.pos ≡ t.pos + length cs
  pub color : t'.color ≡ t.color
  pub state : t'.state ≡ normal
  pub shows : Shows t'.screen t.color t.pos cs
  pub before : (a : ℕ) → a < 2 * t.pos → t'.screen a ≡ t.screen a

abbrev pub shown : Tty → ℕ → Tty
shown t c = record t { screen = put_cell t.pos c t.color t.screen; pos = t.pos + 1 }

Written-cons :
    (c : ℕ) (cs : List ℕ) (t t' : Tty) → Written cs (shown t c) t' → Written (c ∷ cs) t t'
Written-cons c cs t t' w = record {
  pos = w.pos ∙ omega arith;
  color = w.color;
  state = w.state;
  shows = (
    w.before (2 * t.pos) (omega arith)
        ∙ set_at_ne (set_at t.screen (2 * t.pos) c) (2 * t.pos + 1) t.color (2 * t.pos)
            (omega arith)
        ∙ set_at_self t.screen (2 * t.pos) c,
    w.before (2 * t.pos + 1) (omega arith)
        ∙ set_at_self (set_at t.screen (2 * t.pos) c) (2 * t.pos + 1) t.color,
    w.shows,
  );
  before = λ a h.
      w.before a (omega arith)
      ∙ set_at_ne (set_at t.screen (2 * t.pos) c) (2 * t.pos + 1) t.color a (omega arith)
      ∙ set_at_ne t.screen (2 * t.pos) c a (omega arith);
}

-- Printable bytes that fit on the screen, written in the normal state, stand in the cells from the
-- cursor on in the current colour, the cells before stay, and the cursor ends behind them.
pub write_from-Printable :
    (cs : List ℕ) (i : ℕ) (t : Tty) (k : Kernel)
    → All Printable cs
    → t.state ≡ normal
    → t.pos + length cs < 2000
    → CanLock k
    → (t' : Tty) × (k' : Kernel) × (write_from cs i t k ≡ ok (t', k')) × Written cs t t'
unfolding write_from write_char
write_from-Printable [] i t k p s h c = (
  t,
  k,
  refl,
  record { pos = omega arith; color = refl; state = s; shows = tt; before = λ a b. refl },
)
write_from-Printable (x ∷ cs) i t k p s h c =
    let (k₁, e, c₁) = breathe-ok i k c in
    let (t', k', r, w) = write_from-Printable cs (i + 1) (shown t x) k₁ p.1 s (omega arith) c₁ in
    (t', k', step k₁ e ∙ r, Written-cons x cs t t' w)
  where
    one : write_char x t ≡ ok (shown t x)
    one = ap (λ m. write_in m x t) s ∙ write_in-Printable x t p.0 (omega arith)

    step :
        (k₁ : Kernel)
        → breathe i k ≡ ok k₁
        → write_from (x ∷ cs) i t k ≡ write_from cs (i + 1) (shown t x) k₁
    step k₁ e = rw (e, one) refl
