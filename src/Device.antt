-- ===== src/Device.antt =====
-- The device manager: kernel/src/drivers/device_manager.c, driver.h and hw_detect.h.
pub mod State
pub mod Find
pub mod Register
pub mod Bind
mod Search
mod Drivers
mod Loop
mod Probe
mod Tests
