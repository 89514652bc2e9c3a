-- ===== src/Syscall.antt =====
-- src/syscall.c and inc/syscall.h: the table of the system calls.
-- The calls themselves are parameters, functions on a world `W`. The number is an `int`.
pub mod Table
use x_os_tmp.Base.{
  ℕ, zero, suc, List, [], ◌∷◌, Option, some, none, Run, ok, panic, ◌>>=◌, get_elem?, set, if_null,
  ℤ, pos, negsuc, ltb, if◌then◌else◌,
}
use x_os_tmp.BlockDriver.{repeat, slot}

module _ (W : Type 0) where
  abbrev pub Callback : Type 0
  Callback = ℤ → ℤ → ℤ → W → ℤ × W

  -- `syscalls`
  abbrev pub Syscalls : Type 0
  Syscalls = List (Option Callback)

module _ {W : Type 0} where
  -- A negative number reads in front of the table, and 256 behind it.
  unfoldable pub t_sys_call : Syscalls W → ℤ → ℤ → ℤ → ℤ → W → Run (ℤ × W)
  t_sys_call t (negsuc n) arg0 arg1 arg2 w = panic
  t_sys_call t (pos num) arg0 arg1 arg2 w =
      let call = do c ← slot t num; ok (if_null c (negsuc 0, w) (λ f. f arg0 arg1 arg2 w))
      in if ltb 256 num then ok (negsuc 0, w) else call

  unfoldable pub syscall_register : ℤ → Option (Callback W) → Syscalls W → Run (ℤ × Syscalls W)
  syscall_register (negsuc n) callback t = panic
  syscall_register (pos num) callback t =
      let place = do c ← slot t num; ok (if_null c (pos 0, set t num callback) (λ f. (negsuc 1, t)))
      in if ltb 256 num then ok (negsuc 0, t) else place

  -- The table that `init_syscall_module` leaves.
  unfoldable pub init_syscall_module :
      Callback W → Callback W → Callback W → Callback W → Callback W → Run (Syscalls W)
  unfolding syscall_register
  init_syscall_module fork yield tsleep write read = do
    (_, t₁) ← syscall_register (pos 0x01) (some fork) (repeat 256 none)
    (_, t₂) ← syscall_register (pos 0x02) (some yield) t₁
    (_, t₃) ← syscall_register (pos 0x03) (some tsleep) t₂
    (_, t₄) ← syscall_register (pos 0x10) (some write) t₃
    (_, t₅) ← syscall_register (pos 0x11) (some read) t₄
    ok t₅
