-- ===== src/Proc.antt =====
-- Processes: kernel/src/userspace/proc.c and kernel/src/common/condvar.c.
pub mod Table
pub mod Wake
pub mod Exit
mod Allocate
mod Slots
mod Woke
mod Woken
mod Tests
