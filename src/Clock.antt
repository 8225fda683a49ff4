-- ===== src/Clock.antt =====
-- The date of the real-time clock: kernel/src/drivers/drv_rtc.c.
pub mod Time
mod Calendar
mod Tests
