-- ===== src/Mem.antt =====
-- The physical page allocator, kernel/src/mem/mem.c and mem.h.
pub mod State
pub mod Single
pub mod Multi
pub mod Init
pub mod Valid
pub mod Pages
pub mod Kalloc
pub mod Kfree
mod Block
mod Boot
mod Tests
