-- ===== src/Tests/CpuTables.antt =====
-- src/cpu: one descriptor, one gate and one interrupt.
use astra_os.Base.{◌+◌, ◌≡◌, arith, [], ◌∷◌, none}
use astra_os.Cpu.Gdt.{GdtTable, IdtTable, gdt_set_gate, idt_set_gate_flags}
use astra_os.Cpu.Gdt.Decode.{base_of, handler_of, gdt_set_gate_lem, idt_set_gate_flags_lem}
use astra_os.Cpu.Interrupts.{
  call, outb, irq_handler, irq_register_handler, irq_handler-irq_register_handler,
}

abbrev empty_gdt : GdtTable
empty_gdt k = record {
  limit_low = 0;
  base_low = 0;
  base_middle = 0;
  access = 0;
  granularity = 0;
  base_high = 0;
}

abbrev empty_idt : IdtTable
empty_idt k = record { offset_low = 0; selector = 0; flags = 0; offset_high = 0 }

-- the descriptor of the TSS
gdt_set_gate_lem_example :
    let t' = gdt_set_gate 5 0x00123456 103 0x89 0 empty_gdt in
    (base_of (t' 5) ≡ 0x00123456)
    × ((t' 5).access ≡ 0x89)
    × ((t' 5).limit_low ≡ 103)
    × (t' 4 ≡ empty_gdt 4)
gdt_set_gate_lem_example =
    gdt_set_gate_lem 5 0x00123456 103 0x89 0 empty_gdt 4 (omega arith) (λ e. omega arith)

-- the gate of the system calls
system_call_gate :
    let t' = idt_set_gate_flags 128 0x00101234 0xEE empty_idt in
    (handler_of (t' 128) ≡ 0x00101234)
    × ((t' 128).selector ≡ 8)
    × ((t' 128).flags ≡ 0xEE)
    × (t' 127 ≡ empty_idt 127)
system_call_gate =
    idt_set_gate_flags_lem 128 0x00101234 0xEE empty_idt 127 (omega arith) (λ e. omega arith)

line_twelve :
    irq_handler (12 + 32) (irq_register_handler 12 0x00101000 (λ k. none))
    ≡ call 0x00101000 ∷ outb 0xA0 0x20 ∷ outb 0x20 0x20 ∷ []
line_twelve = irq_handler-irq_register_handler 12 0x00101000 (λ k. none) (omega arith)
