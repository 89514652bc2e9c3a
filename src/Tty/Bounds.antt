-- ===== src/Tty/Bounds.antt =====
-- The cursor stays on the screen, and no byte behind the screen is written.
use x_os_tmp.Base.{
  ℕ, ◌+◌, ◌-◌, ◌*◌, ◌%◌, ◌<◌, ◌≤◌, ◌≡◌, refl, ◌∙◌, false, List, [], ◌∷◌, ◌==◌, ltb, leb, arith,
  Bool-cases, inl, inr, le→ltb, lt→ltb, ◌&&◌, ok, set_at_ne,
}
use x_os_tmp.Kernel.{Kernel}
use x_os_tmp.Kernel.Lock.{CanLock, lock-unlock}
use x_os_tmp.Tty.{
  Tty, State, normal, setting, scroll, put_char, write_in, write_char, write_from, tty0_write,
  flush_cursor, breathe, blank, move_down,
}

-- The bytes of the screen alone may differ.
abbrev pub Contained : Tty → Tty → Type 0
Contained t t' = (a : ℕ) → 4000 ≤ a → t'.screen a ≡ t.screen a

put_char-bounds :
    (c : ℕ) (t : Tty) → t.pos < 2000 → ((put_char c t).pos < 2080) × Contained t (put_char c t)
unfolding put_char
put_char-bounds c t h = (ground arith, λ a b. ground arith)

-- The screen after one line of scrolling.
abbrev pub scrolled : Tty → Tty
scrolled t = record t { screen = blank 3840 160 (move_down 160 3840 t.screen); pos = t.pos - 80 }

leb-above : (a : ℕ) → 4000 ≤ a → (leb 3840 a && ltb a (3840 + 160)) ≡ false
leb-above a h = ground arith

scroll-bounds :
    (t : Tty) → t.pos < 2080 → (t' : Tty) × (scroll 2 t ≡ ok t') × (t'.pos < 2000) × Contained t t'
unfolding scroll
scroll-bounds t h = elim (Bool-cases (ltb t.pos 2000)) [
  | inl e ↦ (t, rw e refl, ground arith, λ a b. refl)
  | inr e ↦ (
    scrolled t,
    rw (e, lt→ltb (t.pos - 80) 2000 (omega arith)) refl,
    omega arith,
    λ a b. rw (leb-above a b, le→ltb a 3840 (omega arith)) refl,
  )
]

-- What a byte, or a buffer, leaves: a cursor on the screen, and the memory behind it untouched.
abbrev pub OnScreen : Tty → Tty → Type 0
OnScreen t t' = (t'.pos < 2000) × Contained t t'

write_in-bounds :
    (s : State) (c : ℕ) (t : Tty)
    → t.pos < 2000
    → (t' : Tty) × (write_in s c t ≡ ok t') × OnScreen t t'
unfolding write_in
write_in-bounds setting c t h = (record t { color = c; state = normal }, refl, (h, λ a b. refl))
write_in-bounds normal c t h = elim (Bool-cases (c == 27)) [
  | inl w ↦ (record t { state = setting }, rw w refl, (h, λ a b. refl))
  | inr w ↦ (put.0, rw w put.1, put.2)
]
  where
    put : (t' : Tty) × (scroll 2 (put_char c t) ≡ ok t') × OnScreen t t'
    put =
        let (low, keep) = put_char-bounds c t h in
        let (t', e, low', keep') = scroll-bounds (put_char c t) low in
        (t', e, (low', λ a b. keep' a b ∙ keep a b))

write_char-bounds :
    (c : ℕ) (t : Tty) → t.pos < 2000 → (t' : Tty) × (write_char c t ≡ ok t') × OnScreen t t'
unfolding write_char
write_char-bounds c t h = write_in-bounds t.state c t h

pub breathe-ok :
    (i : ℕ) (k : Kernel) → CanLock k → (k' : Kernel) × (breathe i k ≡ ok k') × CanLock k'
breathe-ok i k c = elim (Bool-cases (i % 32 == 31)) [
  | inl e ↦
      let (k', w, same, cur, f) = lock-unlock k c in (k', rw e w, rw (cur, same k.cur_process) c)
  | inr e ↦ (k, rw e refl, c)
]

write_from-bounds :
    (cs : List ℕ) (i : ℕ) (t : Tty) (k : Kernel)
    → t.pos < 2000
    → CanLock k
    → (t' : Tty) × (k' : Kernel) × (write_from cs i t k ≡ ok (t', k')) × OnScreen t t'
unfolding write_from
write_from-bounds [] i t k h c = (t, k, refl, (h, λ a b. refl))
write_from-bounds (x ∷ cs) i t k h c =
    let (k₁, e, c₁) = breathe-ok i k c in
    let (t₁, w, (low, keep)) = write_char-bounds x t h in
    let (t', k', r, (low', keep')) = write_from-bounds cs (i + 1) t₁ k₁ low c₁ in
    (t', k', next k₁ t₁ e w ∙ r, (low', λ a b. keep' a b ∙ keep a b))
  where
    next :
        (k₁ : Kernel) (t₁ : Tty)
        → breathe i k ≡ ok k₁
        → write_char x t ≡ ok t₁
        → write_from (x ∷ cs) i t k ≡ write_from cs (i + 1) t₁ k₁
    next k₁ t₁ e w = rw (e, w) refl

-- For every byte sequence, from a cursor on the screen and with room for one more lock, tty0_write
-- ends with the cursor on the screen and no byte behind the 4000 bytes of the screen changed.
pub tty0_write-bounds :
    (buf : List ℕ) (t : Tty) (k : Kernel)
    → t.pos < 2000
    → CanLock k
    → (t' : Tty) × (k' : Kernel) × (tty0_write buf t k ≡ ok (t', k')) × OnScreen t t'
unfolding tty0_write flush_cursor
tty0_write-bounds buf t k h c =
    let (t', k', r, (low, keep)) = write_from-bounds buf 0 t k h c in
    (
      flush_cursor t',
      k',
      rw r refl,
      (low, λ a b. set_at_ne t'.screen (2 * t'.pos + 1) t'.color a (omega arith) ∙ keep a b),
    )
