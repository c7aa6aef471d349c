-- ===== src/Support.antt =====
-- src/runtime/support: the data structures that the collector is built on.
pub mod PageTable
pub mod Qsort
pub mod Xalloc
pub mod ArrayList
