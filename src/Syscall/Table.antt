-- ===== src/Syscall/Table.antt =====
-- Which call each number comes to after the initialisation.
use x_os_tmp.Base.{
  ℕ, zero, suc, ◌<◌, ◌≡◌, refl, Option, some, none, ok, panic, get_elem?, set, if_null, ℤ, pos,
  negsuc, arith, ltb, ltb→lt, ltb→le, Bool-cases, inl, inr, ==→eq, ==→ne, ne→==, ◌≢◌, ◌∙◌,
  if◌then◌else◌, ◌==◌,
}
use x_os_tmp.BlockDriver.{repeat}
use x_os_tmp.BlockDriver.Dispatch.{get_elem?-set_ne}
use x_os_tmp.Syscall.{Callback, Syscalls, t_sys_call, syscall_register, init_syscall_module}

get_elem?-repeat {ℓ} : {A : Type ℓ} (m n : ℕ) (a : A) → n < m → get_elem? (repeat m a) n ≡ some a
get_elem?-repeat zero n a h = absurd (omega arith)
get_elem?-repeat (suc m) zero a h = refl
get_elem?-repeat (suc m) (suc n) a h = get_elem?-repeat m n a (omega arith)

module _ {W : Type 0} (fork yield tsleep write read : Callback W) where
  -- The call behind a number.
  abbrev pub call_of : ℕ → Option (Callback W)
  call_of n =
      if n == 1
      then some fork
      else if n == 2
      then some yield
      else if n == 3
      then some tsleep
      else if n == 16
      then some write
      else if n == 17
      then some read
      else none

  -- The table after each registration.
  abbrev table1 : Syscalls W
  table1 = set (repeat 256 none) 1 (some fork)

  abbrev table2 : Syscalls W
  table2 = set table1 2 (some yield)

  abbrev table3 : Syscalls W
  table3 = set table2 3 (some tsleep)

  abbrev table4 : Syscalls W
  table4 = set table3 16 (some write)

  abbrev table : Syscalls W
  table = set table4 17 (some read)

  entry : (n : ℕ) → n < 256 → get_elem? table n ≡ some (call_of n)
  entry n h = elim (Bool-cases (n == 1)) [
    | inl a ↦ rw a (rw (==→eq n 1 a) refl)
    | inr a ↦ rw a (elim (Bool-cases (n == 2)) [
      | inl b ↦ rw b (rw (==→eq n 2 b) refl)
      | inr b ↦ rw b (elim (Bool-cases (n == 3)) [
        | inl c ↦ rw c (rw (==→eq n 3 c) refl)
        | inr c ↦ rw c (elim (Bool-cases (n == 16)) [
          | inl d ↦ rw d (rw (==→eq n 16 d) refl)
          | inr d ↦ rw d (elim (Bool-cases (n == 17)) [
            | inl e ↦ rw e (rw (==→eq n 17 e) refl)
            | inr e ↦ rw e (
                get_elem?-set_ne table4 17 n (some read) (==→ne n 17 e)
                ∙ get_elem?-set_ne table3 16 n (some write) (==→ne n 16 d)
                ∙ get_elem?-set_ne table2 3 n (some tsleep) (==→ne n 3 c)
                ∙ get_elem?-set_ne table1 2 n (some yield) (==→ne n 2 b)
                ∙ get_elem?-set_ne (repeat 256 none) 1 n (some fork) (==→ne n 1 a)
                ∙ get_elem?-repeat 256 n none h)
          ])
        ])
      ])
    ])
  ]

  -- After init_syscall_module, for a number other than 256 that is not negative, t_sys_call comes
  -- to fork, yield, tsleep, write or read for 1, 2, 3, 16 and 17, and answers -1 for every other
  -- one; the number 256 reads behind the table.
  pub init_syscall_module-t_sys_call :
      (num : ℕ) (arg0 arg1 arg2 : ℤ) (w : W)
      → num ≢ 256
      → (t : Syscalls W) × (init_syscall_module fork yield tsleep write read ≡ ok t)
        × (t_sys_call t (pos num) arg0 arg1 arg2 w
            ≡ ok (if_null (call_of num) (negsuc 0, w) (λ f. f arg0 arg1 arg2 w)))
        × (t_sys_call t (pos 256) arg0 arg1 arg2 w ≡ panic)
  unfolding init_syscall_module syscall_register t_sys_call
  init_syscall_module-t_sys_call num arg0 arg1 arg2 w ne = (table, refl, called, refl)
    where
      called :
          t_sys_call table (pos num) arg0 arg1 arg2 w
          ≡ ok (if_null (call_of num) (negsuc 0, w) (λ f. f arg0 arg1 arg2 w))
      called = elim (Bool-cases (ltb 256 num)) [
        | inl e ↦
            rw
              (
                e,
                ne→== num 1 (omega (arith, ltb→lt 256 num e)),
                ne→== num 2 (omega (arith, ltb→lt 256 num e)),
                ne→== num 3 (omega (arith, ltb→lt 256 num e)),
                ne→== num 16 (omega (arith, ltb→lt 256 num e)),
                ne→== num 17 (omega (arith, ltb→lt 256 num e)),
              )
              refl
        | inr e ↦ rw (e, entry num (omega (arith, ltb→le 256 num e))) refl
      ]
