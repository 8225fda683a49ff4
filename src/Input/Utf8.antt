-- ===== src/Input/Utf8.antt =====
-- The encoder `emit_utf8` of kernel/src/drivers/drv_ps2.c: the bytes that it gives to kputc.
use dz_os.Prelude.{
  ℕ, ◌+◌, ◌-◌, ◌*◌, ◌/◌, ◌%◌, ◌^◌, ◌≤◌, ◌<◌, ◌≡◌, ap, inl, inr, Bool, true, false, ◌&&◌, Option,
  none, some, List, [], ◌∷◌, arith, ltb, leb, if◌then◌else◌, Bool-cases,
}

unfoldable pub emit_utf8 : ℕ → List ℕ
emit_utf8 c =
    if leb c 127
    then c ∷ []
    else if leb c 2047
    then (192 + (c / 64) % 32) ∷ (128 + c % 64) ∷ []
    else if leb c 65535
    then (224 + (c / 4096) % 16) ∷ (128 + (c / 64) % 64) ∷ (128 + c % 64) ∷ []
    else (240 + (c / 262144) % 8)
      ∷ (128 + (c / 4096) % 64)
      ∷ (128 + (c / 64) % 64)
      ∷ (128 + c % 64)
      ∷ []

-- A reader of UTF-8, by the ranges of the leading byte; each continuation byte carries six bits.
abbrev pub decode_utf8 : List ℕ → Option ℕ
decode_utf8 (a ∷ []) = if ltb a 128 then some a else none
decode_utf8 (a ∷ b ∷ []) =
    if leb 192 a && ltb a 224 then some ((a - 192) * 64 + (b - 128)) else none
decode_utf8 (a ∷ b ∷ c ∷ []) =
    if leb 224 a && ltb a 240 then some ((a - 224) * 4096 + (b - 128) * 64 + (c - 128)) else none
decode_utf8 (a ∷ b ∷ c ∷ d ∷ []) =
    if leb 240 a && ltb a 248
    then some ((a - 240) * 262144 + (b - 128) * 4096 + (c - 128) * 64 + (d - 128))
    else none
decode_utf8 _ = none

if_some : (b : Bool) (x y : ℕ) → b ≡ true → x ≡ y → (if b then some x else none) ≡ some y
if_some true x y h e = ap some e
if_some false x y h e = cc

-- The bytes of a code point below 2^21 decode to that code point.
pub decode_utf8-emit_utf8 : (c : ℕ) → c < 2 ^ 21 → decode_utf8 (emit_utf8 c) ≡ some c
unfolding emit_utf8
decode_utf8-emit_utf8 c h = elim (Bool-cases (leb c 127)) [
  | inl one ↦ rw one (if_some _ _ c (ground arith) (omega arith))
  | inr more ↦ elim (Bool-cases (leb c 2047)) [
    | inl two ↦
        let small : c ≤ 2047 = ground arith in
        rw (more, two) (if_some _ _ c (ground arith) (omega arith))
    | inr more' ↦ elim (Bool-cases (leb c 65535)) [
      | inl three ↦
          let small : c ≤ 65535 = ground arith in
          rw (more, more', three) (if_some _ _ c (ground arith) (omega arith))
      | inr four ↦ rw (more, more', four) (if_some _ _ c (ground arith) (omega arith))
    ]
  ]
]
