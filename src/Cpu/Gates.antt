-- ===== src/Cpu/Gates.antt =====
-- The gates that src/cpu/idt.c, isr.c and irq.c fill at the start of the kernel.
pub mod Filled
use astra_os.Base.{ℕ, zero, suc, ◌+◌, ◌-◌, ◌*◌, Option, none}
use astra_os.Cpu.Gdt.{IdtTable, idt_set_gate, idt_set_gate_flags}
use astra_os.Cpu.Interrupts.{Handlers}

-- `idt_ptr_t`
pub record IdtPtr : Type 0 where
  pub limit : ℕ
  pub base : ℕ

-- the calls of `idt_set_gate` for the gates from `n` on, with the handler `stub i` for gate `i`
unfoldable pub set_gates : ℕ → ℕ → (ℕ → ℕ) → IdtTable → IdtTable
unfolding idt_set_gate
set_gates zero n stub t = t
set_gates (suc left) n stub t = set_gates left (n + 1) stub (idt_set_gate n (stub n) t)

-- `idt_init`, with the address of the table: what IDTR is loaded with, and 256 empty gates
unfoldable pub idt_init : ℕ → IdtTable → IdtPtr × IdtTable
idt_init address t = (record { limit = 8 * 256 - 1; base = address }, set_gates 256 0 (λ i. 0) t)

-- `isr_install`, with the addresses of the stubs in assembly, gate 128 as one that ring 3 may call
unfoldable pub isr_install : (ℕ → ℕ) → ℕ → IdtTable → Handlers × IdtTable
isr_install isr isr128 t = ((λ n. none), idt_set_gate_flags 128 isr128 0xEE (set_gates 32 0 isr t))

unfoldable pub irq_install : (ℕ → ℕ) → IdtTable → IdtTable
irq_install irq t = set_gates 16 32 (λ n. irq (n - 32)) t
