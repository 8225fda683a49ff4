-- ===== src/Fs/Devices.antt =====
-- The character devices that a process opens by name: kernel/src/fs/device.c.
use dz_os.Prelude.{
  ℕ, zero, suc, ◌-◌, ◌≤◌, ◌≡◌, refl, subst, Bool, true, false, ◌&&◌, Option, none, some, List, [],
  ◌∷◌, arith, ◌==◌, if◌then◌else◌, update,
}
use dz_os.Prelude.Int.{ℤ}
use dz_os.Fs.File.{FileType, ProcessFile, Process, proc_allocate_fd, minus_one}

-- `struct device`: the name, and whether the functions that `device_open` asks for are there
pub record CharDevice : Type 0 where
  pub name : List ℕ
  pub has_read : Bool
  pub has_write : Bool

-- the table: "serial", "serial_async" and "fb"
unfoldable pub device_table : List CharDevice
device_table =
    record { name = 115 ∷ 101 ∷ 114 ∷ 105 ∷ 97 ∷ 108 ∷ []; has_read = true; has_write = true }
    ∷ record {
      name = 115 ∷ 101 ∷ 114 ∷ 105 ∷ 97 ∷ 108 ∷ 95 ∷ 97 ∷ 115 ∷ 121 ∷ 110 ∷ 99 ∷ [];
      has_read = true;
      has_write = true;
    }
    ∷ record { name = 102 ∷ 98 ∷ []; has_read = false; has_write = true }
    ∷ []

-- `strcmp(a, b) == 0`
unfoldable pub device_name_is : List ℕ → List ℕ → Bool
device_name_is [] [] = true
device_name_is [] (y ∷ ys) = false
device_name_is (x ∷ xs) [] = false
device_name_is (x ∷ xs) (y ∷ ys) = x == y && device_name_is xs ys

-- the first of these devices with the name, the first of them being device `i`; `none` is -1
unfoldable pub device_index_from : List ℕ → List CharDevice → ℕ → Option (ℕ × CharDevice)
device_index_from name [] i = none
device_index_from name (d ∷ ds) i =
    let rest = device_index_from name ds (suc i) in
    if device_name_is name d.name then some (i, d) else rest

unfoldable pub device_index : List ℕ → Option (ℕ × CharDevice)
device_index name = device_index_from name device_table 0

unfoldable pub device_file : ℕ × CharDevice → ProcessFile
device_file (i, d) = record {
  kind = FileType.fd_device i;
  offset = 0;
  readable = d.has_read;
  writable = d.has_write;
}

-- the descriptor filled in, given the device and the descriptor found
unfoldable pub fill_descriptor : Option (ℕ × CharDevice) → Option ℕ → Process → ℤ × Process
fill_descriptor none fd p = (minus_one, p)
fill_descriptor (some d) none p = (minus_one, p)
fill_descriptor (some d) (some fd) p =
    (ℤ.pos fd, record p { open_files = update p.open_files fd (device_file d) })

unfoldable pub device_open : List ℕ → Process → ℤ × Process
device_open name p = fill_descriptor (device_index name) (proc_allocate_fd p) p

-- `DEVICES_SIZE` is 3; `none` is NULL
unfoldable pub nth_device : List CharDevice → ℕ → Option CharDevice
nth_device [] i = none
nth_device (d ∷ ds) zero = some d
nth_device (d ∷ ds) (suc i) = nth_device ds i

unfoldable pub device_get : ℤ → Option CharDevice
device_get (ℤ.pos i) = nth_device device_table i
device_get (ℤ.negsuc i) = none

abbrev Found : List CharDevice → ℕ → Option (ℕ × CharDevice) → Type 0
Found ds i none = ℕ
Found ds i (some (j, d)) = (i ≤ j) × (nth_device ds (j - i) ≡ some d)

Found-later :
    (e : CharDevice) (ds : List CharDevice) (i : ℕ) (r : Option (ℕ × CharDevice))
    → Found ds (suc i) r
    → Found (e ∷ ds) i r
unfolding nth_device
Found-later e ds i none h = 0
Found-later e ds i (some (j, d)) (low, h) =
    let step : suc (j - suc i) ≡ j - i = omega arith in
    (omega arith, subst (λ k. nth_device (e ∷ ds) k ≡ some d) step h)

-- The device that device_index finds is the one that device_get returns for its index.
nth-Found :
    (name : List ℕ) (ds : List CharDevice) (i : ℕ) → Found ds i (device_index_from name ds i)
unfolding device_index_from nth_device
nth-Found name [] i = 0
nth-Found name (e ∷ ds) i =
    let here : 0 ≡ i - i = omega arith in
    elim (device_name_is name e.name)
      as (λ b. Found (e ∷ ds) i (if b then some (i, e) else device_index_from name ds (suc i))) [
        | true ↦ (omega arith, subst (λ k. nth_device (e ∷ ds) k ≡ some e) here refl)
        | false ↦ Found-later e ds i (device_index_from name ds (suc i)) (nth-Found name ds (suc i))
      ]
