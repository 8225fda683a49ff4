-- ===== src/Input.antt =====
-- The PS/2 keyboard and mouse: kernel/src/drivers/drv_ps2.c.
pub mod Utf8
pub mod Keyboard
pub mod Mouse
mod Layout
mod Sets
mod Packets
mod Tests
