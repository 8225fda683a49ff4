-- ===== src/Device/Tests.antt =====
-- Runs of the device manager of kernel/src/drivers/device_manager.c.
use dz_os.Prelude.{ℕ, refl, false, some, arith, ◌==◌, if◌then◌else◌}
use dz_os.Prelude.Int.{pos}
use dz_os.Device.State.{Manager, Device, Driver, DriverBus, DriverClass, OsData}
use dz_os.Device.Register.{ps2_mouse}
use dz_os.Device.Bind.{device_manager_probe_all, device_manager_init_all}
use dz_os.Device.Probe.{IsBound, start_devices-IsBound}

abbrev mouse : Device
mouse = record {
  name = some ps2_mouse;
  class_ = DriverClass.class_input;
  bus = DriverBus.bus_ps2;
  drv = 0;
  driver_data = 0;
  os_data = OsData.os_null;
  irq = 12;
  initialized = false;
}

-- one device, and the drivers at 16 and 32
abbrev manager : Manager
manager = record {
  devices = λ i. mouse;
  device_count = 1;
  drivers = λ i. if i == 0 then 16 else 32;
  driver_count = 2;
  initialized = false;
}

-- every driver serves PS/2 input, and its operations succeed
abbrev driver : ℕ → Driver
driver a = record {
  bus = DriverBus.bus_ps2;
  class_ = DriverClass.class_input;
  probe = some (λ dev. (pos 0, dev));
  init = some (λ dev. (pos 0, dev));
}

start_example :
    IsBound driver
      ((device_manager_init_all driver (device_manager_probe_all driver manager)).devices 0)
start_example =
    start_devices-IsBound driver
      (λ a dev. record { class_ = refl; bus = refl; drv = refl; initialized = refl })
      (λ a dev. record { class_ = refl; bus = refl; drv = refl; initialized = refl }) manager 0
      (omega arith)
      (record {
        bus = λ ne. absurd (ne refl);
        class_ = λ ne. absurd (ne refl);
        has_driver = λ on. cc;
      })
