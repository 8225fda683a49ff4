-- ===== src/Lock/Tests.antt =====
-- Runs of the spinlocks of kernel/src/common/spinlock.c.
use dz_os.Prelude.{refl, true, false, arith}
use dz_os.Lock.Spin.{Cpu, Site, spinlock_lock, spinlock_unlock}
use dz_os.Lock.Nesting.{IsCpu, Restores, and_then, lock-unlock}

abbrev cpu : Cpu
cpu = record { interrupts = true; depth = 0; was_enabled = false }

cpu-IsCpu : IsCpu cpu
cpu-IsCpu = record { off = λ h. refl; room = omega arith }

-- the lock is free
abbrev free : Site
free = record {
  spinlocks_enabled = true;
  id = 0;
  cpu = cpu;
  lock = record { locked = 0; holding_cpu = 0 };
}

unlock_example : Restores free (and_then (spinlock_lock free) spinlock_unlock)
unlock_example = lock-unlock free refl refl cpu-IsCpu
