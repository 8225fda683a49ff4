-- ===== src/Device/Loop.antt =====
-- The loops of kernel/src/drivers/device_manager.c over the devices.
use dz_os.Prelude.{
  ℕ, zero, suc, ◌+◌, ◌≤◌, ◌<◌, ◌≡◌, refl, sym, ap, ◌∙◌, inl, inr, arith, ◌==◌, Bool-cases, update,
}
use dz_os.Prelude.{==-eq}
use dz_os.Device.State.{Manager, Device}
use dz_os.Device.Bind.{for_devices}

-- A round reads the drivers of the manager, and no device but its own.
abbrev pub Reads : (Manager → Device → Device) → Type 0
Reads round =
    (m : Manager) (d : ℕ → Device) (dev : Device)
    → round (record m { devices = d }) dev ≡ round m dev

for_devices_below :
    (round : Manager → Device → Device) (at n i : ℕ) (m : Manager)
    → i < at
    → (for_devices round at n m).devices i ≡ m.devices i
unfolding for_devices
for_devices_below round at zero i m h = refl
for_devices_below round at (suc n) i m h =
    for_devices_below round (suc at) n i
      (record m { devices = update m.devices at (round m (m.devices at)) }) (omega arith)
    ∙ ground arith

-- every device is changed once, by its own round
pub for_devices_lem :
    (round : Manager → Device → Device) (at n i : ℕ) (m : Manager)
    → Reads round
    → at ≤ i
    → i < at + n
    → (for_devices round at n m).devices i ≡ round m (m.devices i)
unfolding for_devices
for_devices_lem round at zero i m r low high = absurd (omega arith)
for_devices_lem round at (suc n) i m r low high =
    let d = update m.devices at (round m (m.devices at)) in
    let m' : Manager = record m { devices = d } in
    elim (Bool-cases (i == at)) [
      | inl eq ↦
          for_devices_below round (suc at) n i m' (omega (arith, ==-eq i at eq))
          ∙ rw eq (ap (λ k. round m (m.devices k)) (sym (==-eq i at eq)))
      | inr ne ↦
          for_devices_lem round (suc at) n i m' r (ground arith) (omega arith)
          ∙ r m d (d i)
          ∙ rw ne refl
    ]
