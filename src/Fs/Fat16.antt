-- ===== src/Fs/Fat16.antt =====
-- src/fs/fat16.c, one module for each group of its functions.
pub mod Layout
pub mod Table
pub mod Name
pub mod Path
pub mod Dir
pub mod Read
pub mod Browse
pub mod Entries
pub mod Make
pub mod Remove
pub mod Volume
pub mod Write
pub mod Move
