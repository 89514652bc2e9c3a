-- ===== src/Interrupt.antt =====
-- src/interrupt.c: the descriptors of the interrupt table, and the masks of the two 8259
-- controllers.
pub mod Gate
use Prim.Native.Nat.{bit_or, bit_and}
use x_os_tmp.Base.{ℕ, ◌+◌, ◌-◌, ◌*◌, ◌/◌, ◌%◌, ◌^◌, Bool, true, false, leb, if◌then◌else◌, set_at}

-- `struct idt_desc_t`
pub record IdtDesc : Type 0 where
  pub l_base : ℕ
  pub selector : ℕ
  pub type : ℕ
  pub h_base : ℕ

-- `_idt`, by the number of the descriptor.
abbrev pub Idt : Type 0
Idt = ℕ → IdtDesc

-- The descriptor of both functions below; `dpl << 13` is an `int`, and the type 16 bits of it.
abbrev pub gate : ℕ → ℕ → ℕ → IdtDesc
gate kind callback dpl = record {
  l_base = callback % 2 ^ 16;
  selector = 0x08;
  type = bit_or kind (dpl * 2 ^ 13) % 2 ^ 16;
  h_base = callback / 2 ^ 16 % 2 ^ 16;
}

unfoldable pub setup_intr_desc : ℕ → ℕ → ℕ → Idt → Idt
setup_intr_desc id callback dpl idt = set_at idt id (gate 0x8e00 callback dpl)

unfoldable pub setup_trap_desc : ℕ → ℕ → ℕ → Idt → Idt
setup_trap_desc id callback dpl idt = set_at idt id (gate 0x8f00 callback dpl)

-- The registers that `_inb` reads and `_outb` writes, by the port, each of a byte.
abbrev pub Ports : Type 0
Ports = ℕ → ℕ

unfoldable pub set_8259_mask : ℕ → Ports → Ports
set_8259_mask port ports =
    let p = if leb 8 port then 0xa1 else 0x21 in
    let line = if leb 8 port then port - 8 else port in
    set_at ports p (bit_or (ports p) (2 ^ line) % 2 ^ 8)

-- `~(1 << port)` of 32 bits.
unfoldable pub clear_8259_mask : ℕ → Ports → Ports
clear_8259_mask port ports =
    let p = if leb 8 port then 0xa1 else 0x21 in
    let line = if leb 8 port then port - 8 else port in
    set_at ports p (bit_and (ports p) ((2 ^ 32 - 1) - 2 ^ line) % 2 ^ 8)
