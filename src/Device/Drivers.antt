-- ===== src/Device/Drivers.antt =====
-- The array of drivers of kernel/src/drivers/device_manager.c as a list: registration appends to it,
-- and `driver_unregister` takes one out.
use dz_os.Prelude.{
  ℕ, zero, suc, ◌+◌, ◌-◌, ◌≤◌, ◌<◌, ◌≡◌, refl, ap, ◌∙◌, inl, inr, Bool, ◌||◌, Option, none, some,
  List, [], ◌∷◌, ◌++◌, arith, leb, ◌==◌, if◌then◌else◌, Bool-cases, ==-refl, update, has,
}
use dz_os.Prelude.{==-comm, is_some}
use dz_os.Device.State.{Manager, max_devices}
use dz_os.Device.Find.{find_from, find_driver}
use dz_os.Device.Search.{FindsFirst, find_from-FindsFirst}
use dz_os.Device.Register.{
  driver_register_verified, driver_unregister, after_unregister, after_register, shift_down,
}

-- entries `at` to `at + n - 1`
abbrev pub list_from : (ℕ → ℕ) → ℕ → ℕ → List ℕ
list_from f at zero = []
list_from f at (suc n) = f at ∷ list_from f (suc at) n

abbrev pub driver_list : Manager → List ℕ
driver_list m = list_from m.drivers 0 m.driver_count

abbrev pub remove_first : ℕ → List ℕ → List ℕ
remove_first d [] = []
remove_first d (x ∷ xs) = if x == d then xs else x ∷ remove_first d xs

list_from_agree :
    (f g : ℕ → ℕ) (at n : ℕ) → ((j : ℕ) → at ≤ j → f j ≡ g j) → list_from f at n ≡ list_from g at n
list_from_agree f g at zero h = refl
list_from_agree f g at (suc n) h =
    rw (h at (omega arith), list_from_agree f g (suc at) n (λ j le. h j (omega arith))) refl

-- `shift_down` leaves the entries below alone
shift_down_below : (at n j : ℕ) (f : ℕ → ℕ) → j < at → shift_down at n f j ≡ f j
unfolding shift_down
shift_down_below at zero j f h = refl
shift_down_below at (suc n) j f h =
    shift_down_below (suc at) n j (update f at (f (suc at))) (omega arith) ∙ ground arith

shift_down-list_from :
    (at n : ℕ) (f : ℕ → ℕ) → list_from (shift_down at n f) at n ≡ list_from f (suc at) n
unfolding shift_down
shift_down-list_from at zero f = refl
shift_down-list_from at (suc n) f =
    let f' = update f at (f (suc at)) in
    let head : shift_down (suc at) n f' at ≡ f (suc at) =
      shift_down_below (suc at) n at f' (omega arith) ∙ ground arith in
    let tail : list_from f' (suc (suc at)) n ≡ list_from f (suc (suc at)) n =
      list_from_agree f' f (suc (suc at)) n (λ j le. ground arith) in
    rw (head, shift_down-list_from (suc at) n f', tail) refl

-- the array after `driver_unregister`, by what the search found
abbrev removed : (ℕ → ℕ) → ℕ → ℕ → Option ℕ → List ℕ
removed f at n none = list_from f at n
removed f at n (some i) = list_from (shift_down i (at + n - 1 - i) f) at (n - 1)

removed_later :
    (f : ℕ → ℕ) (at n : ℕ) (r : Option ℕ) (test : ℕ → Bool)
    → FindsFirst test (suc at) n r
    → removed f at (suc n) r ≡ f at ∷ removed f (suc at) n r
removed_later f at n none test h = refl
removed_later f at zero (some i) test (low, high, hit, before) = absurd (omega arith)
removed_later f at (suc n) (some i) test (low, high, hit, before) =
    let far : at + suc (suc n) - 1 - i ≡ suc at + suc n - 1 - i = omega arith in
    let less : suc (suc n) - 1 ≡ suc n = omega arith in
    let fewer : suc n - 1 ≡ n = omega arith in
    rw (far, less, fewer, shift_down_below i (suc at + suc n - 1 - i) at f (omega arith)) refl

removed-remove_first :
    (f : ℕ → ℕ) (d at n : ℕ)
    → removed f at n (find_from (λ i. f i == d) at n) ≡ remove_first d (list_from f at n)
unfolding find_from
removed-remove_first f d at zero = refl
removed-remove_first f d at (suc n) = elim (Bool-cases (f at == d)) [
  | inl h ↦
      let far : at + suc n - 1 - at ≡ n = omega arith in
      let less : suc n - 1 ≡ n = omega arith in rw (h, far, less) (shift_down-list_from at n f)
  | inr h ↦ rw h (
      removed_later f at n (find_from (λ i. f i == d) (suc at) n) (λ i. f i == d)
        (find_from-FindsFirst (λ i. f i == d) (suc at) n)
      ∙ ap (λ l. f at ∷ l) (removed-remove_first f d (suc at) n))
]

-- the manager after `driver_unregister`, by what the search found
unregister_found :
    (m : Manager) (r : Option ℕ)
    → driver_list (after_unregister m r).1 ≡ removed m.drivers 0 m.driver_count r
unfolding after_unregister
unregister_found m none = refl
unregister_found m (some i) =
    let base : 0 + m.driver_count ≡ m.driver_count = omega arith in rw base refl

-- `driver_unregister` takes the driver out of the list of drivers, at its first place, and keeps the
-- others in their order; a driver that is not in it leaves the list as it was.
pub unregister-driver_list :
    (d : ℕ) (m : Manager) → driver_list (driver_unregister d m).1 ≡ remove_first d (driver_list m)
unfolding driver_unregister find_driver
unregister-driver_list d m =
    unregister_found m (find_driver m d) ∙ removed-remove_first m.drivers d 0 m.driver_count

list_from_append :
    (f : ℕ → ℕ) (d at n : ℕ)
    → list_from (update f (at + n) d) at (n + 1) ≡ list_from f at n ++ (d ∷ [])
list_from_append f d at zero = let base : at + 0 ≡ at = omega arith in rw (base, ==-refl at) refl
list_from_append f d at (suc n) =
    let g = update f (at + suc n) d in
    let next : at + suc n ≡ suc at + n = omega arith in
    let more : suc n + 1 ≡ suc (n + 1) = omega arith in
    let head : g at ≡ f at = ground arith in
    let tail : list_from g (suc at) (n + 1) ≡ list_from f (suc at) n ++ (d ∷ []) =
      rw next (list_from_append f d (suc at) n) in
    rw (more, head, tail) refl

has_found :
    (f : ℕ → ℕ) (d at n : ℕ) → is_some (find_from (λ i. f i == d) at n) ≡ has d (list_from f at n)
unfolding find_from
has_found f d at zero = refl
has_found f d at (suc n) = elim (Bool-cases (f at == d)) [
  | inl h ↦ rw (h, ==-comm d (f at)) (rw h refl)
  | inr h ↦ rw (h, ==-comm d (f at)) (rw h (has_found f d (suc at) n))
]

register_found :
    (d : ℕ) (m : Manager) (r : Option ℕ)
    → driver_list (after_register d m r).1
      ≡ (if is_some r then driver_list m else driver_list m ++ (d ∷ []))
unfolding after_register
register_found d m none =
    let base : 0 + m.driver_count ≡ m.driver_count = omega arith in
    rw base at (list_from_append m.drivers d 0 m.driver_count)
register_found d m (some i) = refl

-- `driver_register_verified` appends the driver to the list of drivers, unless the list holds it or 256
-- drivers are registered: then the list stays as it was.
pub register-driver_list :
    (d : ℕ) (m : Manager)
    → driver_list (driver_register_verified d m).1 ≡ (
        if leb max_devices m.driver_count || has d (driver_list m)
        then driver_list m
        else driver_list m ++ (d ∷ []))
unfolding driver_register_verified find_driver
register-driver_list d m = elim (Bool-cases (leb max_devices m.driver_count)) [
  | inl full ↦ rw full refl
  | inr room ↦
      rw room
        (register_found d m (find_driver m d) ∙ rw (has_found m.drivers d 0 m.driver_count) refl)
]
