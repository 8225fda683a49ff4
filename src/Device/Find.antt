-- ===== src/Device/Find.antt =====
-- The searches of kernel/src/drivers/device_manager.c: `device_find_by_name`, `device_find_by_irq`,
-- and the loops over `drivers`.
use dz_os.Prelude.{ℕ, zero, suc, Bool, false, ◌&&◌, Option, none, some, List, ◌==◌, if◌then◌else◌}
use dz_os.Device.State.{Manager, Device, same_name}

-- `for (i = at; i < at + n; i++) if (test(i)) return i`
unfoldable pub find_from : (ℕ → Bool) → ℕ → ℕ → Option ℕ
find_from test at zero = none
find_from test at (suc n) = if test at then some at else find_from test (suc at) n

unfoldable pub is_named : List ℕ → Device → Bool
is_named name dev = elim dev.name [ none ↦ false | some n ↦ same_name n name ]

unfoldable pub device_find_by_name : Manager → Option (List ℕ) → Option ℕ
device_find_by_name m none = none
device_find_by_name m (some name) = find_from (λ i. is_named name (m.devices i)) 0 m.device_count

unfoldable pub device_find_by_irq : Manager → ℕ → Option ℕ
device_find_by_irq m irq =
    find_from (λ i. ((m.devices i).irq == irq) && (m.devices i).initialized) 0 m.device_count

-- the index at which a driver is registered
unfoldable pub find_driver : Manager → ℕ → Option ℕ
find_driver m drv = find_from (λ i. m.drivers i == drv) 0 m.driver_count
