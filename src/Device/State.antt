-- ===== src/Device/State.antt =====
-- State of the device manager: `device_t` and `driver_t` of kernel/src/drivers/driver.h,
-- `device_manager_t` of device_manager.h and the hardware records of hw_detect.h.
-- A driver is the address of its object, with NULL as 0; a device is its index in `devices`.
use dz_os.Prelude.{ℕ, Bool, true, false, ◌&&◌, Option, List, [], ◌∷◌, ◌==◌}
use dz_os.Prelude.Int.{ℤ}

abbrev pub max_devices : ℕ
max_devices = 256

-- `driver_bus_t`
pub data DriverBus : Type 0 where
  bus_none bus_ps2 bus_pci bus_platform bus_virtual : DriverBus

-- `driver_class_t`
pub data DriverClass : Type 0 where
  class_misc class_input class_block class_net class_display class_char : DriverClass

-- the value of the enumerator
unfoldable pub bus_code : DriverBus → ℕ
bus_code DriverBus.bus_none = 0
bus_code DriverBus.bus_ps2 = 1
bus_code DriverBus.bus_pci = 2
bus_code DriverBus.bus_platform = 3
bus_code DriverBus.bus_virtual = 4

unfoldable pub class_code_of : DriverClass → ℕ
class_code_of DriverClass.class_misc = 0
class_code_of DriverClass.class_input = 1
class_code_of DriverClass.class_block = 2
class_code_of DriverClass.class_net = 3
class_code_of DriverClass.class_display = 4
class_code_of DriverClass.class_char = 5

pub record PciDeviceInfo : Type 0 where
  pub bus : ℕ
  pub device : ℕ
  pub function : ℕ
  pub vendor_id : ℕ
  pub device_id : ℕ
  pub class_code : ℕ
  pub subclass : ℕ
  pub prog_if : ℕ
  pub irq : ℕ
  pub irq_pin : ℕ
  pub subsystem_vendor : ℕ
  pub subsystem_id : ℕ
  pub bar : List ℕ
  pub bar_size : List ℕ

pub record Ps2DeviceInfo : Type 0 where
  pub port : ℕ
  pub irq : ℕ
  pub exists : Bool

-- What `os_data` points to: nothing, a copy of a hardware record, or a framebuffer.
pub data OsData : Type 0 where
  os_null : OsData
  os_pci : PciDeviceInfo → OsData
  os_ps2 : Ps2DeviceInfo → OsData
  os_framebuffer : ℕ → OsData

-- A name is its characters, or `none` for NULL.
pub record Device : Type 0 where
  pub name : Option (List ℕ)
  pub class_ : DriverClass
  pub bus : DriverBus
  pub drv : ℕ
  pub driver_data : ℕ
  pub os_data : OsData
  pub irq : ℕ
  pub initialized : Bool

-- An operation of a driver may change the device that it is given; `none` is a NULL pointer.
pub record Driver : Type 0 where
  pub bus : DriverBus
  pub class_ : DriverClass
  pub probe : Option (Device → ℤ × Device)
  pub init : Option (Device → ℤ × Device)

pub record Manager : Type 0 where
  pub devices : ℕ → Device
  pub device_count : ℕ
  pub drivers : ℕ → ℕ
  pub driver_count : ℕ
  pub initialized : Bool

-- `strcmp(a, b) == 0`
unfoldable pub same_name : List ℕ → List ℕ → Bool
same_name [] [] = true
same_name [] (b ∷ bs) = false
same_name (a ∷ as') [] = false
same_name (a ∷ as') (b ∷ bs) = (a == b) && same_name as' bs

-- the return value 0
unfoldable pub is_zero : ℤ → Bool
is_zero (ℤ.pos n) = n == 0
is_zero (ℤ.negsuc n) = false
