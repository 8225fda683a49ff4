-- ===== src/Lock/Nesting.antt =====
-- Sequences of calls of kernel/src/common/spinlock.c: a lock and an unlock, and two locks.
use dz_os.Prelude.{◌+◌, ◌-◌, ◌%◌, ◌^◌, ◌<◌, ◌≡◌, refl, sym, ap, true, false, arith, ◌==◌, ==-refl}
use dz_os.Lock.Spin.{
  Cpu, Site, Outcome, save_and_disable_interrupts, restore_interrupts, this_cpu_holding_lock,
  test_and_set, spinlock_lock, spinlock_unlock,
}

-- Interrupts are off inside a saved section, and the depth has room to grow.
pub record IsCpu (c : Cpu) : Type 0 where
  pub off : c.interrupts ≡ true → c.depth ≡ 0
  pub room : c.depth < 2 ^ 16 - 2

-- one call after another, if the first returns
abbrev pub and_then : Outcome → (Site → Outcome) → Outcome
and_then Outcome.panics f = Outcome.panics
and_then (Outcome.spins s) f = Outcome.spins s
and_then (Outcome.returns s) f = f s

-- the interrupt state of one CPU is that of another
abbrev pub Restores : Site → Outcome → Type 0
Restores s (Outcome.returns s') =
    (s'.cpu.interrupts ≡ s.cpu.interrupts) × (s'.cpu.depth ≡ s.cpu.depth) × (s'.lock.locked ≡ 0)
Restores s _ = ⊥

save_restore_depth :
    (c : Cpu)
    → c.depth < 2 ^ 16 - 1
    → (restore_interrupts (save_and_disable_interrupts c)).depth ≡ c.depth
unfolding save_and_disable_interrupts restore_interrupts
save_restore_depth c h = ground arith

save_restore_interrupts :
    (c : Cpu)
    → (c.interrupts ≡ true → c.depth ≡ 0)
    → c.depth < 2 ^ 16 - 1
    → (restore_interrupts (save_and_disable_interrupts c)).interrupts ≡ c.interrupts
unfolding save_and_disable_interrupts restore_interrupts
save_restore_interrupts c off h = ground arith

-- a saved section inside a saved section changes nothing
save_restore_nested :
    (c : Cpu)
    → 0 < c.depth
    → c.depth < 2 ^ 16 - 1
    → c.interrupts ≡ false
    → restore_interrupts (save_and_disable_interrupts c) ≡ c
unfolding save_and_disable_interrupts restore_interrupts
save_restore_nested c pos h off =
    let outer : (c.depth == 0) ≡ false = ground arith in
    let back : ((c.depth + 1) % 65536 + 65535) % 65536 ≡ c.depth = omega arith in
    simp (outer, back) (ap (λ i. record c { interrupts = i }) (sym off))

-- the CPU inside the lock
inside :
    (c : Cpu)
    → IsCpu c
    → restore_interrupts (save_and_disable_interrupts (save_and_disable_interrupts c))
      ≡ save_and_disable_interrupts c
unfolding save_and_disable_interrupts
inside c v = save_restore_nested (save_and_disable_interrupts c) (omega arith) (omega arith) refl

-- The state in which a CPU holds the lock that it took in state `s`.
abbrev held : Site → Site
held s = record s {
  cpu = save_and_disable_interrupts s.cpu;
  lock = record { locked = 1; holding_cpu = s.id };
}

lock_free :
    (s : Site)
    → s.spinlocks_enabled ≡ true
    → s.lock.locked ≡ 0
    → IsCpu s.cpu
    → spinlock_lock s ≡ Outcome.returns (held s)
unfolding spinlock_lock this_cpu_holding_lock test_and_set
lock_free s on free v = simp (on, free, inside s.cpu v) refl

unlock_held :
    (s : Site)
    → s.spinlocks_enabled ≡ true
    → IsCpu s.cpu
    → spinlock_unlock (held s)
      ≡ Outcome.returns (record s {
        cpu = restore_interrupts (save_and_disable_interrupts s.cpu);
        lock = record { locked = 0; holding_cpu = 0 };
      })
unfolding spinlock_unlock this_cpu_holding_lock
unlock_held s on v = simp (on, ==-refl s.id, inside s.cpu v) refl

-- With the spinlocks enabled, a free lock that a CPU takes and releases is free again, and the CPU's interrupt
-- flag and nesting depth are what they were; neither call spins or panics. The CPU's interrupts are off inside
-- a saved section, and its depth is below 2 ^ 16 - 2.
pub lock-unlock :
    (s : Site)
    → s.spinlocks_enabled ≡ true
    → s.lock.locked ≡ 0
    → IsCpu s.cpu
    → Restores s (and_then (spinlock_lock s) spinlock_unlock)
lock-unlock s on free v =
    rw (lock_free s on free v, unlock_held s on v)
      (
        save_restore_interrupts s.cpu v.off (omega (arith, v.room)),
        save_restore_depth s.cpu (omega (arith, v.room)),
        refl,
      )

lock_again : (s : Site) → s.spinlocks_enabled ≡ true → spinlock_lock (held s) ≡ Outcome.panics
unfolding spinlock_lock this_cpu_holding_lock
lock_again s on = simp (on, ==-refl s.id) refl

-- A CPU that takes a lock twice panics instead of spinning for ever.
pub lock-lock :
    (s : Site)
    → s.spinlocks_enabled ≡ true
    → s.lock.locked ≡ 0
    → IsCpu s.cpu
    → and_then (spinlock_lock s) spinlock_lock ≡ Outcome.panics
lock-lock s on free v = rw (lock_free s on free v) (lock_again s on)
