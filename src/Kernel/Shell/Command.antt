-- ===== src/Kernel/Shell/Command.antt =====
-- shell.c: what the commands of `shell_execute` share, and the dispatch.
pub mod Report
pub mod System
pub mod Disk
pub mod Files
pub mod Execute
pub mod Dispatch
