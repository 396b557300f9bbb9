-- ===== src/Fs.antt =====
-- The file system, src/fs.
pub mod Fat16
