-- ===== src/Input/Layout.antt =====
-- The table reads of `keyboard_handler` of kernel/src/drivers/drv_ps2.c.
use dz_os.Prelude.{
  ℕ, zero, suc, ◌%◌, ◌<◌, ◌≡◌, refl, ◌⊎◌, inl, inr, Bool, true, false, not, ◌&&◌, Option, some,
  List, [], ◌∷◌, arith, ltb, leb, ◌==◌, if◌then◌else◌, Bool-cases, ◌>>=◌, get_or,
}
use dz_os.Prelude.{is_some, ==-eq}
use dz_os.Input.Keyboard.{
  Keyboard, Key, us_set2_to_set1, table_read, translate, press, printed, after_translate,
  keyboard_handler,
}

abbrev all_below : ℕ → List ℕ → Bool
all_below b [] = true
all_below b (x ∷ xs) = ltb x b && all_below b xs

get_or_below : (b i : ℕ) (xs : List ℕ) → 0 < b → all_below b xs ≡ true → get_or xs i 0 < b
get_or_below b i [] pos h = pos
get_or_below b zero (x ∷ xs) pos h = ground arith
get_or_below b (suc i) (x ∷ xs) pos h = get_or_below b i xs pos (ground arith)

-- the codes of set 1 that the table gives are below 128
pub set1_code_lt : (i : ℕ) → get_or us_set2_to_set1 i 0 < 128
set1_code_lt i = get_or_below 128 i us_set2_to_set1 (omega arith) refl

if_reads :
    {A : Type 0} (b : Bool) (x y : Option A)
    → is_some x ≡ true
    → is_some y ≡ true
    → is_some (if b then x else y) ≡ true
if_reads true x y h k = h
if_reads false x y h k = k

print_reads :
    (table : List ℕ) (code : ℕ) (k : Keyboard)
    → code < 128
    → is_some {A = List ℕ × Keyboard}
        (table_read table code >>= λ codepoint. some (printed codepoint, k))
      ≡ true
print_reads table code k h = let room : ltb code 128 ≡ true = ground arith in rw room refl

press_reads : (key : Key) (k : Keyboard) → key.code < 128 → is_some (press key k) ≡ true
unfolding press
press_reads key k h = search (if_reads, print_reads) depth 12

after_some :
    (code : ℕ) (released : Bool) (k : Keyboard)
    → code < 128
    → is_some (after_translate (some (record { released = released; code = code }), k)) ≡ true
unfolding after_translate
after_some code released k h = press_reads (record { released = released; code = code }) k h

-- For a byte from a controller in scan code set 1 or 2, the handler reads inside its tables, except in one
-- case: in set 2, a byte of 128 or more other than 0xF0 that follows the prefix 0xF0.
pub keyboard_handler_reads :
    (status byte : ℕ) (k : Keyboard)
    → status % 2 ≡ 1
    → byte < 256
    → (k.scancode_set ≡ 1) ⊎ (k.scancode_set ≡ 2)
    → is_some (keyboard_handler status byte k)
      ≡ not ((k.scancode_set == 2) && k.release_next && leb 128 byte && not (byte == 240))
unfolding keyboard_handler translate after_translate
keyboard_handler_reads status byte k busy h (inl one) =
    let on : (status % 2 == 0) ≡ false = ground arith in
    simp (on, one) (after_some (byte % 128) (leb 128 byte) k (omega arith))
keyboard_handler_reads status byte k busy h (inr two) =
    let on : (status % 2 == 0) ≡ false = ground arith in
    elim (Bool-cases (byte == 240)) [
      | inl prefix ↦
          let high : leb 128 byte ≡ true = ground (arith, ==-eq byte 240 prefix) in
          elim (Bool-cases k.release_next) [
            | inl release ↦ simp (on, two, prefix, high, release) refl
            | inr plain ↦ simp (on, two, prefix, high, plain) refl
          ]
      | inr key ↦ elim (Bool-cases k.release_next) [
        | inl release ↦ elim (Bool-cases (leb 128 byte)) [
          | inl high ↦
              let beyond : ltb byte 128 ≡ false = ground arith in
              simp (on, two, key, release, high, beyond) refl
          | inr low ↦
              let inside : ltb byte 128 ≡ true = ground arith in
              simp (on, two, key, release, low, inside)
                (after_some (get_or us_set2_to_set1 byte 0) true
                  (record k { scancode_set = 2; release_next = false }) (set1_code_lt byte))
        ]
        | inr plain ↦
            let inside : ltb (byte % 128) 128 ≡ true = ground arith in
            simp (on, two, key, plain, inside)
              (after_some (get_or us_set2_to_set1 (byte % 128) 0) (leb 128 byte) k
                (set1_code_lt (byte % 128)))
      ]
    ]
