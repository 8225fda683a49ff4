-- ===== src/Serial.antt =====
-- The serial port COM1: kernel/src/drivers/drv_serial.c.
pub mod Buffer
mod Fifo
mod Tests
