-- ===== src/Cpu/Gdt.antt =====
-- src/cpu/gdt.c, src/cpu/tss.c and src/cpu/idt.c: descriptors, packed and read back.
pub mod Decode
use astra_os.Base.{ℕ, zero, suc, ◌+◌, ◌-◌, ◌*◌, ◌/◌, ◌%◌, ◌^◌, u8, u16, bit_and, bit_or, update}

-- `gdt_entry_t`
pub record GdtEntry : Type 0 where
  pub limit_low : ℕ
  pub base_low : ℕ
  pub base_middle : ℕ
  pub access : ℕ
  pub granularity : ℕ
  pub base_high : ℕ

abbrev pub GdtTable : Type 0
GdtTable = ℕ → GdtEntry

unfoldable pub gdt_set_gate : ℕ → ℕ → ℕ → ℕ → ℕ → GdtTable → GdtTable
unfolding update
gdt_set_gate num base limit access gran t = update t num (record {
  limit_low = bit_and limit 0xFFFF;
  base_low = bit_and base 0xFFFF;
  base_middle = bit_and (base / 65536) 0xFF;
  access = access;
  granularity = bit_or (bit_and (limit / 65536) 0x0F) (bit_and gran 0xF0);
  base_high = bit_and (base / 16777216) 0xFF;
})

unfoldable pub gdt_set_tss : ℕ → ℕ → GdtTable → GdtTable
unfolding gdt_set_gate
gdt_set_tss base limit = gdt_set_gate 5 base limit 0x89 0x00

-- the entries, in the order in which they are set
unfoldable pub gdt_init : GdtTable → GdtTable
unfolding gdt_set_gate
gdt_init t =
    let t0 = gdt_set_gate 0 0 0 0 0 t in
    let t1 = gdt_set_gate 1 0 0xFFFFFFFF 0x9A 0xCF t0 in
    let t2 = gdt_set_gate 2 0 0xFFFFFFFF 0x92 0xCF t1 in
    let t3 = gdt_set_gate 3 0 0xFFFFFFFF 0xFA 0xCF t2 in
    let t4 = gdt_set_gate 4 0 0xFFFFFFFF 0xF2 0xCF t3 in gdt_set_gate 5 0 0 0 0 t4

-- `idt_entry_t`
pub record IdtEntry : Type 0 where
  pub offset_low : ℕ
  pub selector : ℕ
  pub flags : ℕ
  pub offset_high : ℕ

abbrev pub IdtTable : Type 0
IdtTable = ℕ → IdtEntry

unfoldable pub idt_set_gate_flags : ℕ → ℕ → ℕ → IdtTable → IdtTable
unfolding update
idt_set_gate_flags n handler flags t = update t n (record {
  offset_low = bit_and handler 0xFFFF;
  selector = 0x08;
  flags = flags;
  offset_high = bit_and (handler / 65536) 0xFFFF;
})

unfoldable pub idt_set_gate : ℕ → ℕ → IdtTable → IdtTable
unfolding idt_set_gate_flags
idt_set_gate n handler = idt_set_gate_flags n handler 0x8E
