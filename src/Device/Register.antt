-- ===== src/Device/Register.antt =====
-- Registration in kernel/src/drivers/device_manager.c: devices found by the hardware scans, and
-- drivers.
use dz_os.Prelude.{
  ℕ, zero, suc, ◌+◌, ◌-◌, Bool, false, Option, none, some, List, [], ◌∷◌, leb, ◌==◌, if◌then◌else◌,
  update,
}
use dz_os.Prelude.Int.{ℤ}
use dz_os.Device.State.{
  Manager, Device, DriverBus, DriverClass, PciDeviceInfo, Ps2DeviceInfo, OsData, max_devices,
}
use dz_os.Device.Find.{device_find_by_name, find_driver}

abbrev pub minus_one : ℤ
minus_one = ℤ.negsuc 0

-- The slot after the last device, filled in place.
unfoldable pub add_device : (Device → Device) → Manager → Manager
add_device fill m = record m {
  devices = update m.devices m.device_count (fill (m.devices m.device_count));
  device_count = m.device_count + 1;
}

unfoldable pub class_of_pci : ℕ → DriverClass
class_of_pci code =
    if code == 1
    then DriverClass.class_block
    else if code == 2
    then DriverClass.class_net
    else if code == 3
    then DriverClass.class_display
    else if code == 9
    then DriverClass.class_input
    else DriverClass.class_misc

-- `got` tells whether kmalloc returned memory for the copy.
unfoldable pub device_register_from_pci : Bool → PciDeviceInfo → Manager → ℤ × Manager
device_register_from_pci got hw m = if leb max_devices m.device_count then (minus_one, m) else (
  ℤ.pos 0,
  add_device
      (λ dev. record dev {
        class_ = class_of_pci hw.class_code;
        bus = DriverBus.bus_pci;
        irq = hw.irq;
        initialized = false;
        drv = 0;
        name = none;
        os_data = if got then OsData.os_pci hw else OsData.os_null;
      })
      m,
)

-- "ps2_keyboard"
abbrev pub ps2_keyboard : List ℕ
ps2_keyboard = 112 ∷ 115 ∷ 50 ∷ 95 ∷ 107 ∷ 101 ∷ 121 ∷ 98 ∷ 111 ∷ 97 ∷ 114 ∷ 100 ∷ []

-- "ps2_mouse"
abbrev pub ps2_mouse : List ℕ
ps2_mouse = 112 ∷ 115 ∷ 50 ∷ 95 ∷ 109 ∷ 111 ∷ 117 ∷ 115 ∷ 101 ∷ []

-- "framebuffer"
abbrev pub framebuffer : List ℕ
framebuffer = 102 ∷ 114 ∷ 97 ∷ 109 ∷ 101 ∷ 98 ∷ 117 ∷ 102 ∷ 102 ∷ 101 ∷ 114 ∷ []

unfoldable pub device_register_from_ps2 : Bool → Ps2DeviceInfo → Manager → ℤ × Manager
device_register_from_ps2 got hw m = if leb max_devices m.device_count then (minus_one, m) else (
  ℤ.pos 0,
  add_device
      (λ dev. record dev {
        name = some (if hw.irq == 1 then ps2_keyboard else ps2_mouse);
        class_ = DriverClass.class_input;
        bus = DriverBus.bus_ps2;
        irq = hw.irq;
        initialized = false;
        drv = 0;
        os_data = if got then OsData.os_ps2 hw else OsData.os_null;
      })
      m,
)

unfoldable pub platform_device : Option (List ℕ) → DriverClass → OsData → Device → Device
platform_device name class_ os dev = record dev {
  name = name;
  class_ = class_;
  bus = DriverBus.bus_platform;
  irq = 0;
  initialized = false;
  drv = 0;
  os_data = os;
  driver_data = 0;
}

unfoldable pub device_register_platform : Option (List ℕ) → DriverClass → Manager → ℤ × Manager
device_register_platform name class_ m =
    if leb max_devices m.device_count then (minus_one, m) else elim (device_find_by_name m name) [
      | some i ↦ (ℤ.pos 0, m)
      | none ↦ (ℤ.pos 0, add_device (platform_device name class_ OsData.os_null) m)
    ]

unfoldable pub device_register_framebuffer : ℕ → Manager → ℤ × Manager
device_register_framebuffer fb m = if leb max_devices m.device_count then (minus_one, m) else (
  ℤ.pos 0,
  add_device
      (platform_device (some framebuffer) DriverClass.class_display (OsData.os_framebuffer fb)) m,
)

-- what `driver_register_verified` does when its loop has found the driver, or has not
unfoldable pub after_register : ℕ → Manager → Option ℕ → ℤ × Manager
after_register drv m (some i) = (ℤ.pos 0, m)
after_register drv m none = (
  ℤ.pos 0,
  record m { drivers = update m.drivers m.driver_count drv; driver_count = m.driver_count + 1 },
)

unfoldable pub driver_register_verified : ℕ → Manager → ℤ × Manager
driver_register_verified drv m =
    if leb max_devices m.driver_count
    then (minus_one, m)
    else after_register drv m (find_driver m drv)

-- `for (j = at; j < at + n; j++) drivers[j] = drivers[j + 1]`
unfoldable pub shift_down : ℕ → ℕ → (ℕ → ℕ) → ℕ → ℕ
shift_down at zero drivers = drivers
shift_down at (suc n) drivers = shift_down (suc at) n (update drivers at (drivers (suc at)))

-- what `driver_unregister` does when its loop has found the driver, or has not
unfoldable pub after_unregister : Manager → Option ℕ → ℤ × Manager
after_unregister m none = (minus_one, m)
after_unregister m (some i) = (
  ℤ.pos 0,
  record m {
    drivers = shift_down i (m.driver_count - 1 - i) m.drivers;
    driver_count = m.driver_count - 1;
  },
)

unfoldable pub driver_unregister : ℕ → Manager → ℤ × Manager
driver_unregister drv m = after_unregister m (find_driver m drv)
