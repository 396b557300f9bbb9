-- ===== src/Kernel.antt =====
-- The kernel's own parts, src/kernel: strings, the loader, and the start of user programs.
pub mod Bytes
pub mod Files
pub mod Print
pub mod Storage
pub mod Syscall
pub mod Shell
pub mod Start
pub mod Text
pub mod Elf
pub mod Exec
