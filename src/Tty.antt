-- ===== src/Tty.antt =====
-- src/tty0.c and inc/tty0.h: the text screen, a state machine over the bytes that are written.
-- The screen is the memory from `tty_base_addr` on: `screen a` is the byte at the offset a.
pub mod Bounds
pub mod Text
use x_os_tmp.Base.{
  ℕ, zero, suc, ◌+◌, ◌-◌, ◌*◌, ◌/◌, ◌%◌, Bool, true, false, List, [], ◌∷◌, ◌++◌, ◌==◌, ltb, leb,
  ◌&&◌, if◌then◌else◌, Run, ok, out_of_fuel, ◌>>=◌, set_at,
}
use x_os_tmp.Kernel.{Kernel, lock_task, unlock_task}

-- `TTY0_STATE_NORMAL` and `TTY0_STATE_SETTING`; the source never enters `TTY0_STATE_START`.
pub data State : Type 0 where
  normal setting : State

pub record Tty : Type 0 where
  pub pos : ℕ
  pub color : ℕ
  pub state : State
  pub screen : ℕ → ℕ
  -- the ports and bytes of `_outb`, latest first
  pub ports : List (ℕ × ℕ)

-- `_memset(base + at, 0x07000700, n)`, which stores double words: 0 at even offsets, 7 at odd ones.
abbrev pub blank : ℕ → ℕ → (ℕ → ℕ) → ℕ → ℕ
blank at n f a = if leb at a && ltb a (at + n) then (if a % 2 == 0 then 0 else 7) else f a

-- `_memmove(base, base + by, n)`
abbrev pub move_down : ℕ → ℕ → (ℕ → ℕ) → ℕ → ℕ
move_down by n f a = if ltb a n then f (a + by) else f a

-- `pos[0] = c; pos[1] = color;` for `pos = base + (at << 1)`
abbrev pub put_cell : ℕ → ℕ → ℕ → (ℕ → ℕ) → ℕ → ℕ
put_cell at c color f = set_at (set_at f (2 * at) c) (2 * at + 1) color

unfoldable pub flush_cursor : Tty → Tty
flush_cursor t = record t {
  screen = set_at t.screen (2 * t.pos + 1) t.color;
  ports =
      (0x3d5, t.pos / 256 % 256) ∷ (0x3d4, 0x0e) ∷ (0x3d5, t.pos % 256) ∷ (0x3d4, 0x0f) ∷ t.ports;
}

-- `while(pos >= 2000)`
pub scroll : ℕ → Tty → Run Tty
scroll zero t = out_of_fuel
scroll (suc f) t =
    let rest =
      scroll f
        (record t { screen = blank 3840 160 (move_down 160 3840 t.screen); pos = t.pos - 80 }) in
    if ltb t.pos 2000 then ok t else rest

-- The chain of tests on a byte in the normal state, but for the escape, which skips the scrolling.
unfoldable pub put_char : ℕ → Tty → Tty
put_char c t =
    if c == 10
    then record t { pos = (t.pos / 80 + 1) * 80 }
    else if c == 8
    then record t {
      screen = put_cell t.pos 0 0 t.screen;
      pos = if ltb 0 t.pos then t.pos - 1 else 0;
    }
    else if c == 13
    then record t { pos = t.pos / 80 * 80 }
    else if c == 0
    then t
    else if c == 9
    then record t { pos = t.pos - t.pos % 8 + 8 }
    else if c == 11
    then record t { pos = t.pos + 80 }
    else if c == 12
    then record t { screen = blank 0 4000 t.screen; pos = 0 }
    else record t { screen = put_cell t.pos c t.color t.screen; pos = t.pos + 1 }

-- One byte, with fuel 2 for the scrolling.
pub write_in : State → ℕ → Tty → Run Tty
unfolding scroll put_char
write_in normal c t = if c == 27 then ok (record t { state = setting }) else scroll 2 (put_char c t)
write_in setting c t = ok (record t { color = c; state = normal })

unfoldable pub write_char : ℕ → Tty → Run Tty
unfolding write_in
write_char c t = write_in t.state c t

-- `lock_task(); unlock_task();`, which lets an interrupt in, before every 32nd byte.
abbrev pub breathe : ℕ → Kernel → Run Kernel
breathe i k = if i % 32 == 31 then unlock_task (lock_task k) else ok k

pub write_from : List ℕ → ℕ → Tty → Kernel → Run (Tty × Kernel)
unfolding write_char
write_from [] i t k = ok (t, k)
write_from (c ∷ cs) i t k = do k' ← breathe i k; t' ← write_char c t; write_from cs (i + 1) t' k'

-- The number of bytes that were written, which is all of them.
unfoldable pub tty0_write : List ℕ → Tty → Kernel → Run (Tty × Kernel)
unfolding write_from flush_cursor
tty0_write buf t k = do (t', k') ← write_from buf 0 t k; ok (flush_cursor t', k')
