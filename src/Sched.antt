-- ===== src/Sched.antt =====
-- The scheduler, kernel/src/userspace/scheduler.c and scheduler.h.
pub mod State
pub mod Queue
pub mod Priority
pub mod Core
pub mod Links
pub mod Buckets
pub mod Enqueue
pub mod Dequeue
pub mod Pick
pub mod Keep
pub mod Loop
pub mod Round
pub mod Faults
pub mod Fair
pub mod Wake
pub mod Bounds
mod Tests
