-- ===== src/Heap.antt =====
-- The kernel heap: kernel/src/mem/kmalloc.c.
pub mod Mixed
pub mod Free
mod Room
mod Small
mod Tests
