-- ===== src/Kernel/Shell.antt =====
-- src/kernel/shell.c: the line editor, the history, and the commands.
pub mod State
pub mod Token
pub mod Line
pub mod History
pub mod Command
pub mod Input
