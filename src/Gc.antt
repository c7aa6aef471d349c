-- ===== src/Gc.antt =====
-- src/runtime/memory/gc.cpp: the phases of a collection.
pub mod Roots
pub mod Mark
pub mod DeadRoots
pub mod Evacuate
pub mod Decrement
pub mod Collect
