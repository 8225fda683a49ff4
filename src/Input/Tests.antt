-- ===== src/Input/Tests.antt =====
-- Runs of the keyboard and the mouse of kernel/src/drivers/drv_ps2.c.
use dz_os.Prelude.{◌+◌, ◌≡◌, refl, Bool, true, false, some, inr, arith, ◌>>=◌, is_some}
use dz_os.Input.Keyboard.{Keyboard, keyboard_handler}
use dz_os.Input.Mouse.{Mouse}
use dz_os.Input.Utf8.{emit_utf8, decode_utf8, decode_utf8-emit_utf8}
use dz_os.Input.Layout.{keyboard_handler_reads}
use dz_os.Input.Sets.{as_set, result_as_set, set2-set1}

-- a keyboard in set 2, with every modifier up, after the prefix of a release or not
abbrev keyboard : Bool → Keyboard
keyboard release = record {
  scancode_set = 2;
  shift_pressed = false;
  ctrl_pressed = false;
  alt_pressed = false;
  capslock_on = false;
  release_next = release;
}

-- the release of F7, whose code is 0x83, reads beyond the table
reads_example : is_some (keyboard_handler 1 131 (keyboard true)) ≡ false
reads_example = keyboard_handler_reads 1 131 (keyboard true) refl (omega arith) (inr refl)

sets_example :
    (keyboard_handler 1 28 (as_set 2 (keyboard false))
      ≡ (keyboard_handler 1 30 (as_set 1 (keyboard false)) >>= result_as_set 2))
    × ((keyboard_handler 1 240 (as_set 2 (keyboard false)) >>= λ r. keyboard_handler 1 28 r.1)
        ≡ (keyboard_handler 1 (30 + 128) (as_set 1 (keyboard false)) >>= result_as_set 2))
sets_example = set2-set1 28 (keyboard false) (omega arith) refl

utf8_example : decode_utf8 (emit_utf8 8364) ≡ some 8364
utf8_example = decode_utf8-emit_utf8 8364 (omega arith)

abbrev mouse : Mouse
mouse = record { mouse_cycle = 2; mouse_packet = λ i. 8 }
