-- ===== src/Lock.antt =====
-- Spinlocks: kernel/src/common/spinlock.c.
pub mod Spin
mod Nesting
mod Tests
