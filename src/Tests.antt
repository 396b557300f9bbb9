-- ===== src/Tests.antt =====
-- Runs at concrete inputs.
pub mod FatTable
pub mod FatPath
pub mod Launch
pub mod FatFiles
pub mod Screen
pub mod Descriptors
pub mod CpuTables
pub mod Numbers
pub mod PageTable
pub mod SmallHeap
pub mod Terminal
pub mod Boot
