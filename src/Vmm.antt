-- ===== src/Vmm.antt =====
-- Virtual memory: kernel/src/mem/vmm.c with vmm.h.
pub mod Table
pub mod Walk
pub mod Map
pub mod User
pub mod Space
pub mod Stack
mod Tree
mod Link
mod Leaf
mod Entries
mod Path
mod Linked
mod Supply
mod Walked
mod Look
mod Placed
mod Mapped
mod Pages
mod Checks
mod Faults
mod Tests
