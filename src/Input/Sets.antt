-- ===== src/Input/Sets.antt =====
-- The two scan code sets of kernel/src/drivers/drv_ps2.c.
use dz_os.Prelude.{
  ℕ, ◌+◌, ◌%◌, ◌<◌, ◌≡◌, refl, sym, ap, ◌∙◌, Bool, true, false, Option, none, some, List, arith,
  ltb, leb, ◌==◌, if◌then◌else◌, ◌>>=◌, get_or,
}
use dz_os.Input.Keyboard.{
  Keyboard, Key, us_set2_to_set1, translate, press, after_translate, keyboard_handler,
}
use dz_os.Input.Layout.{set1_code_lt}

-- the keyboard with another scan code set
abbrev pub as_set : ℕ → Keyboard → Keyboard
as_set n k = record k { scancode_set = n }

abbrev pub result_as_set : ℕ → List ℕ × Keyboard → Option (List ℕ × Keyboard)
result_as_set n r = some (r.0, as_set n r.1)

bind_if :
    {A B : Type 0} (b : Bool) (x y : Option A) (f : A → Option B)
    → ((if b then x else y) >>= f) ≡ (if b then (x >>= f) else (y >>= f))
bind_if true x y f = refl
bind_if false x y f = refl

bind_assoc :
    {A B C : Type 0} (x : Option A) (f : A → Option B) (g : B → Option C)
    → ((x >>= f) >>= g) ≡ (x >>= λ a. f a >>= g)
bind_assoc none f g = refl
bind_assoc (some a) f g = refl

-- the modifiers and the layout do not depend on the scan code set
press-as_set :
    (key : Key) (k : Keyboard) (m n : ℕ)
    → press key (as_set n k) ≡ (press key (as_set m k) >>= result_as_set n)
unfolding press
press-as_set key k m n = simp (bind_if, bind_assoc) refl

abbrev a_key : Bool → ℕ → Key
a_key released code = record { released = released; code = code }

set1_press :
    (code : ℕ) (k : Keyboard)
    → code < 128
    → keyboard_handler 1 code (as_set 1 k) ≡ press (a_key false code) (as_set 1 k)
unfolding keyboard_handler translate after_translate
set1_press code k h =
    let low : leb 128 code ≡ false = ground arith in
    let same : code % 128 ≡ code = omega arith in rw (low, same) refl

set1_release :
    (code : ℕ) (k : Keyboard)
    → code < 128
    → keyboard_handler 1 (code + 128) (as_set 1 k) ≡ press (a_key true code) (as_set 1 k)
unfolding keyboard_handler translate after_translate
set1_release code k h =
    let high : leb 128 (code + 128) ≡ true = ground arith in
    let same : (code + 128) % 128 ≡ code = omega arith in rw (high, same) refl

set2_press :
    (c : ℕ) (k : Keyboard)
    → c < 128
    → k.release_next ≡ false
    → keyboard_handler 1 c (as_set 2 k)
      ≡ press (a_key false (get_or us_set2_to_set1 c 0)) (as_set 2 k)
unfolding keyboard_handler translate after_translate
set2_press c k h plain =
    let key : (c == 240) ≡ false = ground arith in
    let inside : ltb c 128 ≡ true = ground arith in
    let same : c % 128 ≡ c = omega arith in
    let low : leb 128 c ≡ false = ground arith in simp (key, plain, same, inside, low) refl

set2_release :
    (c : ℕ) (k : Keyboard)
    → c < 128
    → k.release_next ≡ false
    → (keyboard_handler 1 240 (as_set 2 k) >>= λ r. keyboard_handler 1 c r.1)
      ≡ press (a_key true (get_or us_set2_to_set1 c 0)) (as_set 2 k)
unfolding keyboard_handler translate after_translate
set2_release c k h plain =
    let key : (c == 240) ≡ false = ground arith in
    let inside : ltb c 128 ≡ true = ground arith in simp (key, inside, plain) refl

-- In set 2 a key pressed, one byte, does what the byte of the translated code does in set 1; and a key
-- released, the prefix 0xF0 and the byte, does what the translated code with bit 7 set does in set 1.
-- The handler is not in the middle of a release, and the byte is below 128.
pub set2-set1 :
    (c : ℕ) (k : Keyboard)
    → c < 128
    → k.release_next ≡ false
    → let code = get_or us_set2_to_set1 c 0 in
      (keyboard_handler 1 c (as_set 2 k)
        ≡ (keyboard_handler 1 code (as_set 1 k) >>= result_as_set 2))
      × ((keyboard_handler 1 240 (as_set 2 k) >>= λ r. keyboard_handler 1 c r.1)
          ≡ (keyboard_handler 1 (code + 128) (as_set 1 k) >>= result_as_set 2))
set2-set1 c k h plain =
    let code = get_or us_set2_to_set1 c 0 in
    let small : code < 128 = set1_code_lt c in
    (
      set2_press c k h plain
          ∙ press-as_set (a_key false code) k 1 2
          ∙ ap (λ r. r >>= result_as_set 2) (sym (set1_press code k small)),
      set2_release c k h plain
          ∙ press-as_set (a_key true code) k 1 2
          ∙ ap (λ r. r >>= result_as_set 2) (sym (set1_release code k small)),
    )
