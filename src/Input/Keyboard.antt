-- ===== src/Input/Keyboard.antt =====
-- The keyboard of kernel/src/drivers/drv_ps2.c: its modifier keys, the tables and `keyboard_handler`.
use dz_os.Prelude.{
  ℕ, ◌%◌, Bool, true, false, not, ◌&&◌, ◌||◌, Option, none, some, List, [], ◌∷◌, ltb, leb, ◌==◌,
  if◌then◌else◌, ◌>>=◌, get_or,
}
use dz_os.Input.Utf8.{emit_utf8}

-- The static variables that the handler writes, and the scan code set that the controller reported.
pub record Keyboard : Type 0 where
  pub scancode_set : ℕ
  pub shift_pressed : Bool
  pub ctrl_pressed : Bool
  pub alt_pressed : Bool
  pub capslock_on : Bool
  pub release_next : Bool

-- Column 0 of `us_layout`, up to the last entry that is not 0; columns 2 and 3 hold zeros and are not
-- read.
abbrev pub us_layout_plain : List ℕ
us_layout_plain =
    0 ∷ 0 ∷ 49 ∷ 50 ∷ 51 ∷ 52 ∷ 53 ∷ 54 ∷ 55 ∷ 56 ∷ 57 ∷ 48 ∷ 45 ∷ 61 ∷ 8 ∷ 9 ∷ 113 ∷ 119 ∷ 101
    ∷ 114 ∷ 116 ∷ 121 ∷ 117 ∷ 105 ∷ 111 ∷ 112 ∷ 91 ∷ 93 ∷ 10 ∷ 0 ∷ 97 ∷ 115 ∷ 100 ∷ 102 ∷ 103 ∷ 104
    ∷ 106 ∷ 107 ∷ 108 ∷ 59 ∷ 39 ∷ 96 ∷ 0 ∷ 92 ∷ 122 ∷ 120 ∷ 99 ∷ 118 ∷ 98 ∷ 110 ∷ 109 ∷ 44 ∷ 46 ∷ 47
    ∷ 0 ∷ 0 ∷ 0 ∷ 32 ∷ []

-- column 1 of `us_layout`
abbrev pub us_layout_shift : List ℕ
us_layout_shift =
    0 ∷ 0 ∷ 33 ∷ 64 ∷ 35 ∷ 36 ∷ 37 ∷ 94 ∷ 38 ∷ 42 ∷ 40 ∷ 41 ∷ 95 ∷ 43 ∷ 8 ∷ 9 ∷ 81 ∷ 87 ∷ 69 ∷ 82
    ∷ 84 ∷ 89 ∷ 85 ∷ 73 ∷ 79 ∷ 80 ∷ 123 ∷ 125 ∷ 10 ∷ 0 ∷ 65 ∷ 83 ∷ 68 ∷ 70 ∷ 71 ∷ 72 ∷ 74 ∷ 75 ∷ 76
    ∷ 58 ∷ 34 ∷ 126 ∷ 0 ∷ 124 ∷ 90 ∷ 88 ∷ 67 ∷ 86 ∷ 66 ∷ 78 ∷ 77 ∷ 60 ∷ 62 ∷ 63 ∷ 0 ∷ 0 ∷ 0 ∷ 32
    ∷ []

abbrev pub us_set2_to_set1 : List ℕ
us_set2_to_set1 =
    0 ∷ 59 ∷ 0 ∷ 63 ∷ 61 ∷ 59 ∷ 60 ∷ 88 ∷ 0 ∷ 68 ∷ 66 ∷ 64 ∷ 62 ∷ 15 ∷ 41 ∷ 0 ∷ 0 ∷ 56 ∷ 42 ∷ 0 ∷ 29
    ∷ 16 ∷ 2 ∷ 0 ∷ 0 ∷ 0 ∷ 44 ∷ 31 ∷ 30 ∷ 17 ∷ 3 ∷ 0 ∷ 0 ∷ 46 ∷ 45 ∷ 32 ∷ 18 ∷ 5 ∷ 4 ∷ 0 ∷ 0 ∷ 57
    ∷ 47 ∷ 33 ∷ 20 ∷ 19 ∷ 6 ∷ 0 ∷ 0 ∷ 49 ∷ 48 ∷ 35 ∷ 34 ∷ 21 ∷ 7 ∷ 0 ∷ 0 ∷ 0 ∷ 50 ∷ 36 ∷ 22 ∷ 8 ∷ 9
    ∷ 0 ∷ 0 ∷ 51 ∷ 37 ∷ 23 ∷ 24 ∷ 11 ∷ 10 ∷ 0 ∷ 0 ∷ 52 ∷ 53 ∷ 38 ∷ 39 ∷ 25 ∷ 12 ∷ 0 ∷ 0 ∷ 0 ∷ 40 ∷ 0
    ∷ 26 ∷ 13 ∷ 0 ∷ 0 ∷ 58 ∷ 54 ∷ 28 ∷ 27 ∷ 0 ∷ 43 ∷ 0 ∷ 0 ∷ 0 ∷ 0 ∷ 0 ∷ 0 ∷ 0 ∷ 0 ∷ 14 ∷ 0 ∷ 0 ∷ 79
    ∷ 0 ∷ 75 ∷ 71 ∷ 0 ∷ 0 ∷ 0 ∷ 82 ∷ 83 ∷ 80 ∷ 76 ∷ 78 ∷ 72 ∷ 1 ∷ 69 ∷ 87 ∷ 78 ∷ 77 ∷ 74 ∷ 55 ∷ 73
    ∷ 70 ∷ 0 ∷ []

-- A read of a table of 128 entries; `none` is a read beyond its end.
abbrev pub table_read : List ℕ → ℕ → Option ℕ
table_read table i = if ltb i 128 then some (get_or table i 0) else none

pub record Key : Type 0 where
  pub released : Bool
  pub code : ℕ

-- The first half of the handler, up to the code of the key: `none` inside is the prefix 0xF0.
unfoldable pub translate : Keyboard → ℕ → Option (Option Key × Keyboard)
translate k byte =
    if k.scancode_set == 2
    then if byte == 240
      then some (none, record k { release_next = true })
      else if k.release_next
      then (table_read us_set2_to_set1 byte >>= λ code.
          some (some (record { released = true; code = code }), record k { release_next = false }))
      else (table_read us_set2_to_set1 (byte % 128) >>= λ code.
          some (some (record { released = leb 128 byte; code = code }), k))
    else if k.scancode_set == 1
    then some (some (record { released = leb 128 byte; code = byte % 128 }), k)
    else some (some (record { released = false; code = byte }), k)

abbrev xor : Bool → Bool → Bool
xor true b = not b
xor false b = b

abbrev pub printed : ℕ → List ℕ
printed codepoint = if codepoint == 0 then [] else emit_utf8 codepoint

-- The second half: the modifiers, then the character of the key.
unfoldable pub press : Key → Keyboard → Option (List ℕ × Keyboard)
press key k =
    if (key.code == 42) || (key.code == 54)
    then some ([], record k { shift_pressed = not key.released })
    else if key.code == 29
    then some ([], record k { ctrl_pressed = not key.released })
    else if key.code == 56
    then some ([], record k { alt_pressed = not key.released })
    else if (key.code == 58) && not key.released
    then some ([], record k { capslock_on = not k.capslock_on })
    else if key.released
    then some ([], k)
    else (table_read
          (if xor k.shift_pressed k.capslock_on then us_layout_shift else us_layout_plain) key.code
        >>= λ codepoint. some (printed codepoint, k))

-- what follows the translation: a prefix ends the handler
unfoldable pub after_translate : Option Key × Keyboard → Option (List ℕ × Keyboard)
after_translate (none, k) = some ([], k)
after_translate (some key, k) = press key k

-- `status` and `byte` are the bytes read from the ports; the result is the bytes given to kputc, and
-- `none` is a read beyond the end of a table.
unfoldable pub keyboard_handler : ℕ → ℕ → Keyboard → Option (List ℕ × Keyboard)
keyboard_handler status byte k =
    if status % 2 == 0 then some ([], k) else (translate k byte >>= after_translate)
