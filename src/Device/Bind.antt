-- ===== src/Device/Bind.antt =====
-- Binding in kernel/src/drivers/device_manager.c: `device_driver_match_and_bind`,
-- `device_manager_probe_all`, `device_manager_init_all` and the early initialisation.
use dz_os.Prelude.{
  ℕ, zero, suc, Bool, true, false, not, ◌&&◌, Option, none, some, ◌==◌, if◌then◌else◌, update,
}
use dz_os.Prelude.Int.{ℤ}
use dz_os.Device.State.{Manager, Device, Driver, bus_code, class_code_of, is_zero}
use dz_os.Device.Find.{find_from}

unfoldable pub matches : Device → Driver → Bool
matches dev drv =
    (bus_code drv.bus == bus_code dev.bus) && (class_code_of drv.class_ == class_code_of dev.class_)

-- the first driver that matches, as the search returned it
unfoldable pub bind_to : Manager → Device → Option ℕ → Bool × Device
bind_to m dev none = (false, dev)
bind_to m dev (some i) = (true, record dev { drv = m.drivers i })

-- a call of `probe`, if there is one; a device whose probe fails is unbound
unfoldable pub run_probe : Option (Device → ℤ × Device) → Device → Device
run_probe none dev = dev
run_probe (some probe) dev =
    let after = (probe dev).1 in
    if dev.drv == 0 then dev else if is_zero (probe dev).0 then after else record after { drv = 0 }

-- a call of `init`, or success if there is none
unfoldable pub run_init : Option (Device → ℤ × Device) → Device → Device
run_init none dev = record dev { initialized = true }
run_init (some init) dev =
    let after = (init dev).1 in
    if is_zero (init dev).0 then record after { initialized = true } else after

module _ (driver : ℕ → Driver) where
  -- The result tells whether the return value is 0.
  unfoldable pub device_driver_match_and_bind : Manager → Device → Bool × Device
  device_driver_match_and_bind m dev =
      if not (dev.drv == 0)
      then (true, dev)
      else bind_to m dev (find_from (λ i. matches dev (driver (m.drivers i))) 0 m.driver_count)

  -- one round of the loop of `device_manager_probe_all`
  unfoldable pub probe_device : Manager → Device → Device
  probe_device m dev =
      let r = device_driver_match_and_bind m dev in
      if dev.initialized then dev else if r.0 then run_probe (driver r.1.drv).probe r.1 else r.1

  -- one round of the loop of `device_manager_init_all`
  unfoldable pub init_device : Manager → Device → Device
  init_device m dev =
      if dev.initialized
      then dev
      else if dev.drv == 0
      then dev
      else run_init (driver dev.drv).init dev

-- `for (i = at; i < at + n; i++)` over the devices; the rounds do not change the drivers
unfoldable pub for_devices : (Manager → Device → Device) → ℕ → ℕ → Manager → Manager
for_devices round at zero m = m
for_devices round at (suc n) m =
    for_devices round (suc at) n
      (record m { devices = update m.devices at (round m (m.devices at)) })

unfoldable pub device_manager_probe_all : (ℕ → Driver) → Manager → Manager
device_manager_probe_all driver m = for_devices (probe_device driver) 0 m.device_count m

unfoldable pub device_manager_init_all : (ℕ → Driver) → Manager → Manager
device_manager_init_all driver m = for_devices (init_device driver) 0 m.device_count m

-- The RTC at index `i`, as the early initialisation brings it up.
unfoldable pub early_bind : (ℕ → Driver) → Manager → Device → Device
early_bind driver m dev =
    let r = device_driver_match_and_bind driver m dev in
    let bound = r.1 in
    let probed : Device = elim (driver bound.drv).probe [
      | none ↦ bound
      | some probe ↦ if bound.drv == 0 then bound else (probe bound).1
    ] in
    if not (r.0) then bound else elim (driver probed.drv).init [
      | none ↦ probed
      | some init ↦
          if probed.drv == 0
          then probed
          else if is_zero ((init probed).0)
          then record ((init probed).1) { initialized = true }
          else (init probed).1
    ]
