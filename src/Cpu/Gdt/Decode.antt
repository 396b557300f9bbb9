-- ===== src/Cpu/Gdt/Decode.antt =====
-- The processor reads back what was packed.
use astra_os.Base.{
  ℕ, ◌+◌, ◌*◌, ◌/◌, ◌%◌, ◌^◌, ◌≡◌, ◌≢◌, ◌<◌, ◌∙◌, ap, arith, bit_and-low, update_self, update_ne,
}
use astra_os.Cpu.Gdt.{GdtEntry, GdtTable, gdt_set_gate, IdtEntry, IdtTable, idt_set_gate_flags}

-- the base that the processor takes from a descriptor
abbrev pub base_of : GdtEntry → ℕ
base_of e = e.base_low + e.base_middle * 65536 + e.base_high * 16777216

-- the address of a gate's handler
abbrev pub handler_of : IdtEntry → ℕ
handler_of e = e.offset_low + e.offset_high * 65536

-- A descriptor that is set has the base and access byte that it was given, and the low 16 bits of
-- its limit; the other descriptors are as they were.
pub gdt_set_gate_lem :
    (num base limit access gran : ℕ) (t : GdtTable) (k : ℕ)
    → base < 2 ^ 32
    → k ≢ num
    → let t' = gdt_set_gate num base limit access gran t in
      (base_of (t' num) ≡ base)
      × ((t' num).access ≡ access)
      × ((t' num).limit_low ≡ limit % 65536)
      × (t' k ≡ t k)
unfolding gdt_set_gate
gdt_set_gate_lem num base limit access gran t k small other =
    let at = update_self t num _ in
    (
      ap base_of at
          ∙ omega (
            arith,
            bit_and-low 16 base,
            bit_and-low 8 (base / 65536),
            bit_and-low 8 (base / 16777216),
          ),
      ap (λ (e : GdtEntry). e.access) at,
      ap (λ (e : GdtEntry). e.limit_low) at ∙ bit_and-low 16 limit,
      update_ne t num _ k other,
    )

-- A gate that is set leads to the handler that it was given, in the kernel's code segment and with
-- the given flags; the other gates are as they were.
pub idt_set_gate_flags_lem :
    (n handler flags : ℕ) (t : IdtTable) (k : ℕ)
    → handler < 2 ^ 32
    → k ≢ n
    → let t' = idt_set_gate_flags n handler flags t in
      (handler_of (t' n) ≡ handler) × ((t' n).selector ≡ 8) × ((t' n).flags ≡ flags) × (t' k ≡ t k)
unfolding idt_set_gate_flags
idt_set_gate_flags_lem n handler flags t k small other =
    let at = update_self t n _ in
    (
      ap handler_of at ∙ omega (arith, bit_and-low 16 handler, bit_and-low 16 (handler / 65536)),
      ap (λ (e : IdtEntry). e.selector) at,
      ap (λ (e : IdtEntry). e.flags) at,
      update_ne t n _ k other,
    )
