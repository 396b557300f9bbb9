-- ===== src/User.antt =====
-- User programs and the system call wrappers they are built on.
pub mod Program
pub mod Api
pub mod Apps
pub mod Init
pub mod Safe
pub mod Echo
