-- ===== src/Cpu.antt =====
-- The descriptor tables and interrupts, src/cpu with src/drivers/pic.c.
pub mod Gdt
pub mod Interrupts
pub mod Timer
pub mod Exceptions
pub mod Tss
pub mod Gates
