-- ===== src/Memory.antt =====
-- src/runtime/memory: the pages that hold objects, the state, and the allocator.
pub mod Page
pub mod Float
pub mod World
pub mod Utilization
pub mod Buckets
pub mod GlobalPages
pub mod Allocator
pub mod OldPages
pub mod Threads
