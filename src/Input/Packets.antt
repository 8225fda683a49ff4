-- ===== src/Input/Packets.antt =====
-- `mouse_handler` of kernel/src/drivers/drv_ps2.c on a packet in order.
use dz_os.Prelude.{
  ℕ, ◌/◌, ◌%◌, ◌<◌, ◌≡◌, inl, inr, false, ◌&&◌, Option, none, some, arith, leb, ◌==◌, Bool-cases,
}
use dz_os.Input.Mouse.{Mouse, store_byte, mouse_handler}

-- Fewer than three bytes are stored, and the first of them has bit 3 set.
pub record IsMouse (m : Mouse) : Type 0 where
  pub cycle : m.mouse_cycle < 3
  pub first : 0 < m.mouse_cycle → (m.mouse_packet 0 / 8) % 2 ≡ 1

-- what a call has to give: a mouse in order
abbrev pub GivesMouse : Option Mouse → Type 0
GivesMouse none = ⊥
GivesMouse (some m) = IsMouse m

-- Every call of the handler is safe: from a state in order it writes inside the packet, for any bytes on
-- the ports, and leaves a state in order.
pub mouse_handler-IsMouse :
    (status byte : ℕ) (m : Mouse) → IsMouse m → GivesMouse (mouse_handler status byte m)
unfolding mouse_handler store_byte
mouse_handler-IsMouse status byte m v = elim (Bool-cases (status % 2 == 0)) [
  | inl idle ↦ rw idle v
  | inr busy ↦
      let m' = store_byte byte m in
      let room : leb 3 m.mouse_cycle ≡ false = ground (arith, v.cycle) in
      elim (Bool-cases ((m'.mouse_cycle == 1) && ((m'.mouse_packet 0 / 8) % 2 == 0))) [
        | inl lost ↦ rw (busy, room, lost) record { cycle = omega arith; first = λ h. omega arith }
        | inr kept ↦ elim (Bool-cases (m'.mouse_cycle == 3)) [
          | inl full ↦
              rw (busy, room, kept, full) record { cycle = omega arith; first = λ h. omega arith }
          | inr more ↦
              rw (busy, room, kept, more)
                record {
                  cycle = ground (arith, v.cycle);
                  first = λ h. ground (arith, v.cycle, v.first);
                }
        ]
      ]
]
