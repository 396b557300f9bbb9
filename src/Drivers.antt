-- ===== src/Drivers.antt =====
-- The drivers, src/drivers.
pub mod Vga
pub mod Keyboard
pub mod Ata
pub mod Pic
