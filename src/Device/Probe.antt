-- ===== src/Device/Probe.antt =====
-- The two phases of `device_manager_init` of kernel/src/drivers/device_manager.c that bind and
-- initialise the devices: what they do to each device.
use dz_os.Prelude.{
  ℕ, zero, suc, ◌<◌, ◌≡◌, refl, sym, ◌∙◌, ◌≢◌, inl, inr, Bool, true, false, Option, none, some,
  arith, ◌==◌, Bool-cases, update,
}
use dz_os.Prelude.Int.{ℤ}
use dz_os.Device.State.{Manager, Device, Driver, bus_code, class_code_of, is_zero}
use dz_os.Device.Find.{find_from}
use dz_os.Device.Search.{FindsFirst, find_from-FindsFirst}
use dz_os.Device.Bind.{
  matches, device_driver_match_and_bind, bind_to, run_probe, run_init, probe_device, init_device,
  for_devices, device_manager_probe_all, device_manager_init_all,
}
use dz_os.Device.Loop.{for_devices_lem}

-- What an operation of a driver leaves as it was.
pub record Keeps (a b : Device) : Type 0 where
  pub class_ : b.class_ ≡ a.class_
  pub bus : b.bus ≡ a.bus
  pub drv : b.drv ≡ a.drv
  pub initialized : b.initialized ≡ a.initialized

abbrev pub OpKeeps : Option (Device → ℤ × Device) → Type 0
OpKeeps none = Unit {0}
OpKeeps (some f) = (dev : Device) → Keeps dev (f dev).1

module _ (driver : ℕ → Driver) where
  -- The driver of a device serves its bus and class, and a device that is initialised has a driver.
  pub record IsBound (dev : Device) : Type 0 where
    pub bus : dev.drv ≢ 0 → bus_code (driver dev.drv).bus ≡ bus_code dev.bus
    pub class_ : dev.drv ≢ 0 → class_code_of (driver dev.drv).class_ ≡ class_code_of dev.class_
    pub has_driver : dev.initialized ≡ true → dev.drv ≢ 0

  matched :
      (dev : Device) (d : Driver)
      → matches dev d ≡ true
      → (bus_code d.bus ≡ bus_code dev.bus) × (class_code_of d.class_ ≡ class_code_of dev.class_)
  unfolding matches
  matched dev d h = ground arith

  bind_to-IsBound :
      (m : Manager) (dev : Device) (r : Option ℕ)
      → FindsFirst (λ i. matches dev (driver (m.drivers i))) 0 m.driver_count r
      → dev.initialized ≡ false
      → IsBound dev
      → IsBound (bind_to m dev r).1
  unfolding bind_to
  bind_to-IsBound m dev none f off b = b
  bind_to-IsBound m dev (some i) (low, high, hit, before) off b = record {
    bus = λ ne. (matched dev (driver (m.drivers i)) hit).0;
    class_ = λ ne. (matched dev (driver (m.drivers i)) hit).1;
    has_driver = λ on. cc;
  }

  Keeps-IsBound : (a b : Device) → Keeps a b → IsBound a → IsBound b
  Keeps-IsBound a b k h = record {
    bus = λ ne. rw (k.drv, k.bus) (h.bus (λ e. ne (k.drv ∙ e)));
    class_ = λ ne. rw (k.drv, k.class_) (h.class_ (λ e. ne (k.drv ∙ e)));
    has_driver = λ on. rw k.drv (h.has_driver (sym k.initialized ∙ on));
  }

  run_probe-IsBound :
      (p : Option (Device → ℤ × Device)) (dev : Device)
      → OpKeeps p
      → dev.initialized ≡ false
      → IsBound dev
      → IsBound (run_probe p dev)
  unfolding run_probe
  run_probe-IsBound none dev k off b = b
  run_probe-IsBound (some f) dev k off b = elim (Bool-cases (dev.drv == 0)) [
    | inl unbound ↦ rw unbound b
    | inr bound ↦ elim (Bool-cases (is_zero (f dev).0)) [
      | inl ok ↦ rw (bound, ok) (Keeps-IsBound dev (f dev).1 (k dev) b)
      | inr failed ↦
          rw (bound, failed)
            record {
              bus = λ ne. absurd (ne refl);
              class_ = λ ne. absurd (ne refl);
              has_driver = λ on. let same = (k dev).initialized in cc;
            }
    ]
  ]

  run_init-IsBound :
      (p : Option (Device → ℤ × Device)) (dev : Device)
      → OpKeeps p
      → dev.drv ≢ 0
      → IsBound dev
      → IsBound (run_init p dev)
  unfolding run_init
  run_init-IsBound none dev k ne b = record {
    bus = b.bus;
    class_ = b.class_;
    has_driver = λ on. ne;
  }
  run_init-IsBound (some f) dev k ne b =
      let after = Keeps-IsBound dev (f dev).1 (k dev) b in
      elim (Bool-cases (is_zero (f dev).0)) [
        | inl ok ↦
            rw ok record {
              bus = after.bus;
              class_ = after.class_;
              has_driver = λ on. rw (k dev).drv ne;
            }
        | inr failed ↦ rw failed after
      ]

  module _ (probes : (a : ℕ) → OpKeeps (driver a).probe)
      (inits : (a : ℕ) → OpKeeps (driver a).init) where
    match-IsBound :
        (m : Manager) (dev : Device)
        → dev.initialized ≡ false
        → IsBound dev
        → IsBound (device_driver_match_and_bind driver m dev).1
    unfolding device_driver_match_and_bind
    match-IsBound m dev off b = elim (Bool-cases (dev.drv == 0)) [
      | inl unbound ↦
          let test : ℕ → Bool = λ i. matches dev (driver (m.drivers i)) in
          rw unbound (
            bind_to-IsBound m dev (find_from test 0 m.driver_count)
              (find_from-FindsFirst test 0 m.driver_count) off b)
      | inr bound ↦ rw bound b
    ]

    match_off :
        (m : Manager) (dev : Device)
        → dev.initialized ≡ false
        → (device_driver_match_and_bind driver m dev).1.initialized ≡ false
    unfolding device_driver_match_and_bind bind_to
    match_off m dev off = elim (Bool-cases (dev.drv == 0)) [
      | inl unbound ↦
          rw unbound
            (bind_off (find_from (λ i. matches dev (driver (m.drivers i))) 0 m.driver_count))
      | inr bound ↦ rw bound off
    ]
      where
        bind_off : (r : Option ℕ) → (bind_to m dev r).1.initialized ≡ false
        bind_off none = off
        bind_off (some i) = off

    probe_device-IsBound :
        (m : Manager) (dev : Device) → IsBound dev → IsBound (probe_device driver m dev)
    unfolding probe_device
    probe_device-IsBound m dev b =
        let r = device_driver_match_and_bind driver m dev in
        elim (Bool-cases dev.initialized) [
          | inl on ↦ simp on b
          | inr off ↦
              let after = match-IsBound m dev off b in
              elim (Bool-cases r.0) [
                | inl ok ↦
                    simp (off, ok)
                      (run_probe-IsBound (driver r.1.drv).probe r.1 (probes r.1.drv)
                        (match_off m dev off) after)
                | inr failed ↦ simp (off, failed) after
              ]
        ]

    init_device-IsBound :
        (m : Manager) (dev : Device) → IsBound dev → IsBound (init_device driver m dev)
    unfolding init_device
    init_device-IsBound m dev b = elim (Bool-cases dev.initialized) [
      | inl on ↦ simp on b
      | inr off ↦ elim (Bool-cases (dev.drv == 0)) [
        | inl unbound ↦ simp (off, unbound) b
        | inr bound ↦
            simp (off, bound)
              (run_init-IsBound (driver dev.drv).init dev (inits dev.drv) (ground arith) b)
      ]
    ]

probe_all_device :
    (driver : ℕ → Driver) (m : Manager) (i : ℕ)
    → i < m.device_count
    → (device_manager_probe_all driver m).devices i ≡ probe_device driver m (m.devices i)
unfolding device_manager_probe_all probe_device device_driver_match_and_bind bind_to
probe_all_device driver m i h =
    for_devices_lem (probe_device driver) 0 m.device_count i m (λ m' d dev. refl) (omega arith)
      (omega arith)

init_all_device :
    (driver : ℕ → Driver) (m : Manager) (i : ℕ)
    → i < m.device_count
    → (device_manager_init_all driver m).devices i ≡ init_device driver m (m.devices i)
unfolding device_manager_init_all init_device
init_all_device driver m i h =
    for_devices_lem (init_device driver) 0 m.device_count i m (λ m' d dev. refl) (omega arith)
      (omega arith)

module _ (driver : ℕ → Driver) (probes : (a : ℕ) → OpKeeps (driver a).probe)
    (inits : (a : ℕ) → OpKeeps (driver a).init) where
  probe_all_count :
      (m : Manager) → (device_manager_probe_all driver m).device_count ≡ m.device_count
  unfolding device_manager_probe_all for_devices
  probe_all_count m = go 0 m.device_count m
    where
      go :
          (at n : ℕ) (m : Manager)
          → (for_devices (probe_device driver) at n m).device_count ≡ m.device_count
      go at zero m = refl
      go at (suc n) m =
          go (suc at) n
            (record m { devices = update m.devices at (probe_device driver m (m.devices at)) })

  -- After both phases every device is still in order: a bound driver serves the bus and the class of its
  -- device, and a device is initialised only if a driver is bound to it. The operations of the drivers
  -- are taken to keep these fields of the device.
  pub start_devices-IsBound :
      (m : Manager) (i : ℕ)
      → i < m.device_count
      → IsBound driver (m.devices i)
      → IsBound driver
          ((device_manager_init_all driver (device_manager_probe_all driver m)).devices i)
  start_devices-IsBound m i h b =
      let m' = device_manager_probe_all driver m in
      let bound : IsBound driver (m'.devices i) =
        rw (probe_all_device driver m i h)
          (probe_device-IsBound driver probes inits m (m.devices i) b) in
      rw (init_all_device driver m' i (rw (probe_all_count m) h))
        (init_device-IsBound driver probes inits m' (m'.devices i) bound)
