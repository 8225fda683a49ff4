-- ===== src/Lock/Spin.antt =====
-- `spinlock_lock`, `spinlock_unlock` and the interrupt stack of kernel/src/common/spinlock.c.
use dz_os.Prelude.{ℕ, ◌+◌, ◌-◌, ◌^◌, Bool, true, false, not, ◌&&◌, ◌==◌, if◌then◌else◌, u16}

-- The interrupt flag of a CPU and its `interrupt_enable_stack`.
pub record Cpu : Type 0 where
  pub interrupts : Bool
  pub depth : ℕ
  pub was_enabled : Bool

-- `struct spinlock`
pub record Spinlock : Type 0 where
  pub locked : ℕ
  pub holding_cpu : ℕ

-- the static variable, the CPU that runs and its number, and the lock of the call
pub record Site : Type 0 where
  pub spinlocks_enabled : Bool
  pub id : ℕ
  pub cpu : Cpu
  pub lock : Spinlock

unfoldable pub enable_spinlocks : Bool → Site → Site
enable_spinlocks enabled s = record s { spinlocks_enabled = enabled }

unfoldable pub save_and_disable_interrupts : Cpu → Cpu
save_and_disable_interrupts c = record {
  interrupts = false;
  was_enabled = if c.depth == 0 then c.interrupts else c.was_enabled;
  depth = u16 (c.depth + 1);
}

unfoldable pub restore_interrupts : Cpu → Cpu
restore_interrupts c =
    let depth = u16 (c.depth + (2 ^ 16 - 1)) in
    record c {
      depth = depth;
      interrupts = if (depth == 0) && c.was_enabled then true else c.interrupts;
    }

unfoldable pub this_cpu_holding_lock : Site → Bool × Site
this_cpu_holding_lock s = (
  not (s.lock.locked == 0) && (s.lock.holding_cpu == s.id),
  record s { cpu = restore_interrupts (save_and_disable_interrupts s.cpu) },
)

-- A call halts the kernel, spins with interrupts off while another CPU holds the lock, or returns.
pub data Outcome : Type 0 where
  panics : Outcome
  spins : Site → Outcome
  returns : Site → Outcome

-- The two stores of a lock that is taken, and the two of one that is released. Between them another CPU would
-- see the lock taken with the holder 0; the CPU that runs here has its interrupts off.
abbrev pub set_locked : Spinlock → Spinlock
set_locked l = record l { locked = 1 }

abbrev pub set_holder : ℕ → Spinlock → Spinlock
set_holder id l = record l { holding_cpu = id }

abbrev pub clear_locked : Spinlock → Spinlock
clear_locked l = record l { locked = 0 }

-- one round of the test-and-set loop, and what follows it once the lock was free
unfoldable pub test_and_set : Site → Outcome
test_and_set s =
    if s.lock.locked == 0
    then Outcome.returns (record s { lock = set_holder s.id (set_locked s.lock) })
    else Outcome.spins s

unfoldable pub spinlock_lock : Site → Outcome
spinlock_lock s =
    let h = this_cpu_holding_lock (record s { cpu = save_and_disable_interrupts s.cpu }) in
    if not s.spinlocks_enabled
    then Outcome.returns s
    else if h.0
    then Outcome.panics
    else test_and_set h.1

unfoldable pub spinlock_unlock : Site → Outcome
spinlock_unlock s =
    let h = this_cpu_holding_lock s in
    if not s.spinlocks_enabled
    then Outcome.returns s
    else if not h.0
    then Outcome.panics
    else Outcome.returns (record (h.1) {
      lock = clear_locked (set_holder 0 h.1.lock);
      cpu = restore_interrupts h.1.cpu;
    })
