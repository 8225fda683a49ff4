-- ===== src/Input/Mouse.antt =====
-- The mouse of kernel/src/drivers/drv_ps2.c: `mouse_handler` and its packet of three bytes.
use dz_os.Prelude.{ℕ, ◌+◌, ◌/◌, ◌%◌, ◌&&◌, Option, none, some, leb, ◌==◌, if◌then◌else◌, u8, update}

-- `mouse_packet` holds the bytes as they were read; the code keeps them as int8_t.
pub record Mouse : Type 0 where
  pub mouse_cycle : ℕ
  pub mouse_packet : ℕ → ℕ

-- the byte stored: `mouse_packet[mouse_cycle++] = byte`
unfoldable pub store_byte : ℕ → Mouse → Mouse
store_byte byte m = record m {
  mouse_packet = update m.mouse_packet m.mouse_cycle byte;
  mouse_cycle = u8 (m.mouse_cycle + 1);
}

-- `none` is a write beyond the end of the packet.
unfoldable pub mouse_handler : ℕ → ℕ → Mouse → Option Mouse
mouse_handler status byte m =
    let m' = store_byte byte m in
    if status % 2 == 0
    then some m
    else if leb 3 m.mouse_cycle
    then none
    else if (m'.mouse_cycle == 1) && ((m'.mouse_packet 0 / 8) % 2 == 0)
    then some (record m' { mouse_cycle = 0 })
    else if m'.mouse_cycle == 3
    then some (record m' { mouse_cycle = 0 })
    else some m'
