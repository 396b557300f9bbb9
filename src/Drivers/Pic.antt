-- ===== src/Drivers/Pic.antt =====
-- src/drivers/pic.c: the set-up and the masks of the interrupt controllers.
use astra_os.Base.{ℕ, ◌-◌, ◌/◌, ◌%◌, ◌^◌, ◌==◌, ltb, if◌then◌else◌, List, [], ◌∷◌}
use astra_os.Cpu.Interrupts.{Effect, outb}

unfoldable pub pic_remap : List Effect
pic_remap =
    outb 0x20 0x11
    ∷ outb 0xA0 0x11
    ∷ outb 0x21 0x20
    ∷ outb 0xA1 0x28
    ∷ outb 0x21 0x04
    ∷ outb 0xA1 0x02
    ∷ outb 0x21 0x01
    ∷ outb 0xA1 0x01
    ∷ outb 0x21 0x0
    ∷ outb 0xA1 0x0
    ∷ []

-- `value & ~(1 << line)`
unfoldable pub clear_bit : ℕ → ℕ → ℕ
clear_bit value line = if value / 2 ^ line % 2 == 1 then value - 2 ^ line else value

-- the write that follows the read of `mask` from the same port
unfoldable pub pic_clear_mask : (ℕ → ℕ) → ℕ → List Effect
unfolding clear_bit
pic_clear_mask mask irq_line =
    if ltb irq_line 8
    then outb 0x21 (clear_bit (mask 0x21) irq_line) ∷ []
    else outb 0xA1 (clear_bit (mask 0xA1) (irq_line - 8)) ∷ []
