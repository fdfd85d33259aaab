-- ===== src/Mm.antt =====
-- The kernel's memory management: src/mm.
pub mod UserPointer
pub mod Pmm
pub mod Swap
pub mod Vmm
pub mod Vmo
mod Tests
