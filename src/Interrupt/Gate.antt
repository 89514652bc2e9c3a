-- ===== src/Interrupt/Gate.antt =====
-- What the processor reads from a descriptor that was set up.
use x_os_tmp.Base.{
  ℕ, ◌+◌, ◌*◌, ◌/◌, ◌%◌, ◌^◌, ◌<◌, ◌≡◌, ◌≢◌, refl, set_at_self, set_at_ne, arith, Bool-cases, inl,
  inr, ◌==◌, ==→eq, ==→ne,
}
use x_os_tmp.Interrupt.{Idt, IdtDesc, gate, setup_intr_desc, setup_trap_desc}

-- The address of the handler, the privilege that a caller needs, and the kind of a gate.
abbrev pub handler : IdtDesc → ℕ
handler d = d.h_base * 2 ^ 16 + d.l_base

abbrev pub privilege : IdtDesc → ℕ
privilege d = d.type / 2 ^ 13 % 4

abbrev pub kind : IdtDesc → ℕ
kind d = d.type / 2 ^ 8 % 16

privileges :
    (callback dpl : ℕ)
    → dpl < 4
    → (privilege (gate 0x8e00 callback dpl) ≡ dpl)
      × (privilege (gate 0x8f00 callback dpl) ≡ dpl)
      × (kind (gate 0x8e00 callback dpl) ≡ 14)
      × (kind (gate 0x8f00 callback dpl) ≡ 15)
privileges callback dpl h = elim (Bool-cases (dpl == 0)) [
  | inl a ↦ rw (==→eq dpl 0 a) (refl, refl, refl, refl)
  | inr a ↦ elim (Bool-cases (dpl == 1)) [
    | inl b ↦ rw (==→eq dpl 1 b) (refl, refl, refl, refl)
    | inr b ↦ elim (Bool-cases (dpl == 2)) [
      | inl c ↦ rw (==→eq dpl 2 c) (refl, refl, refl, refl)
      | inr c ↦ rw (three (==→ne dpl 0 a) (==→ne dpl 1 b) (==→ne dpl 2 c)) (refl, refl, refl, refl)
    ]
  ]
]
  where
    three : dpl ≢ 0 → dpl ≢ 1 → dpl ≢ 2 → dpl ≡ 3
    three a b c = omega arith

-- For an address of 32 bits and a privilege below 4, the descriptor that setup_intr_desc or
-- setup_trap_desc sets up holds the whole address, the privilege, and the kind 14 or 15, and every
-- other descriptor is as before.
pub setup_desc-gate :
    (id other callback dpl : ℕ) (idt : Idt)
    → callback < 2 ^ 32
    → dpl < 4
    → other ≢ id
    → (handler (setup_intr_desc id callback dpl idt id) ≡ callback)
      × (handler (setup_trap_desc id callback dpl idt id) ≡ callback)
      × (privilege (setup_intr_desc id callback dpl idt id) ≡ dpl)
      × (privilege (setup_trap_desc id callback dpl idt id) ≡ dpl)
      × (kind (setup_intr_desc id callback dpl idt id) ≡ 14)
      × (kind (setup_trap_desc id callback dpl idt id) ≡ 15)
      × (setup_intr_desc id callback dpl idt other ≡ idt other)
      × (setup_trap_desc id callback dpl idt other ≡ idt other)
unfolding setup_intr_desc setup_trap_desc
setup_desc-gate id other callback dpl idt h p ne =
    let (a, b, c, d) = privileges callback dpl p in
    (
      rw (set_at_self idt id (gate 0x8e00 callback dpl)) (omega arith),
      rw (set_at_self idt id (gate 0x8f00 callback dpl)) (omega arith),
      rw (set_at_self idt id (gate 0x8e00 callback dpl)) a,
      rw (set_at_self idt id (gate 0x8f00 callback dpl)) b,
      rw (set_at_self idt id (gate 0x8e00 callback dpl)) c,
      rw (set_at_self idt id (gate 0x8f00 callback dpl)) d,
      set_at_ne idt id (gate 0x8e00 callback dpl) other ne,
      set_at_ne idt id (gate 0x8f00 callback dpl) other ne,
    )
