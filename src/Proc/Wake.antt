-- ===== src/Proc/Wake.antt =====
-- Condition variables: kernel/src/common/condvar.c, and proc_wakeup of kernel/src/userspace/proc.c. A
-- condition variable goes by the address of its lock.
use dz_os.Prelude.{
  ℕ, zero, suc, Bool, true, false, not, ◌&&◌, ◌||◌, Option, none, some, ◌==◌, if◌then◌else◌, ◌>>=◌,
  update,
}
use dz_os.Sched.State.{Sched, ProcessState, sleeping}
use dz_os.Sched.Core.{sched_sleep, sched_wakeup}
use dz_os.Proc.Table.{max_processes}

-- the scheduler, and the locks that are held
pub record Waiting : Type 0 where
  pub sched : Sched
  pub locked : ℕ → Bool

-- `none` is a call that spins or panics.
unfoldable pub condvar_lock : ℕ → Waiting → Option Waiting
condvar_lock cond w =
    if w.locked cond then none else some (record w { locked = update w.locked cond true })

unfoldable pub condvar_unlock : ℕ → Waiting → Option Waiting
condvar_unlock cond w =
    if w.locked cond then some (record w { locked = update w.locked cond false }) else none

abbrev pub is_sleeping : ProcessState → Bool
is_sleeping sleeping = true
is_sleeping _ = false

-- whether a process waits on a channel
unfoldable pub waits_on : ℕ → Sched → ℕ → Bool
waits_on channel s p = is_sleeping (s.state p) && s.waiting_channel p == channel

-- `lock_of` is the address of a process's own lock, `processes` its slots.
module _ (lock_of : ℕ → ℕ) (processes : ℕ → ℕ) where
  -- a round of `proc_wakeup` at a process that is locked
  unfoldable pub wake_one : ℕ → ℕ → Waiting → Waiting
  wake_one channel p w =
      if waits_on channel w.sched p then record w { sched = sched_wakeup w.sched p } else w

  -- The loop over `n` slots from `i` on; it ends behind the first process woken unless `everyone`.
  unfoldable pub wakeup_from : ℕ → Bool → ℕ → ℕ → Waiting → Option Waiting
  wakeup_from channel everyone i zero w = some w
  wakeup_from channel everyone i (suc n) w =
      let p = processes i in
      let skip = wakeup_from channel everyone (suc i) n w in
      let visit = condvar_lock (lock_of p) w >>= λ w1.
      condvar_unlock (lock_of p) (wake_one channel p w1) >>= λ w2.
      elim (waits_on channel w1.sched p && not everyone) [
        | true ↦ some w2
        | false ↦ wakeup_from channel everyone (suc i) n w2
      ] in
      if p == 0 || p == (w.sched).running_process then skip else visit

  unfoldable pub proc_wakeup : ℕ → Bool → Waiting → Option Waiting
  proc_wakeup channel everyone w = wakeup_from channel everyone 0 max_processes w

  unfoldable pub condvar_notify : ℕ → Waiting → Option Waiting
  condvar_notify cond w = proc_wakeup cond false w

  unfoldable pub condvar_notify_all : ℕ → Waiting → Option Waiting
  condvar_notify_all cond w = proc_wakeup cond true w

  -- `condvar_wait` up to the switch to the scheduler, at the time `now`
  unfoldable pub wait_before : ℕ → ℕ → Waiting → Option Waiting
  wait_before now cond w =
      let p = (w.sched).running_process in
      if p == 0
      then none
      else (condvar_lock (lock_of p) w >>= condvar_unlock cond >>= λ w2.
          some (record w2 { sched = sched_sleep now w2.sched p cond }))

  -- and behind it, when the process runs again
  unfoldable pub wait_after : ℕ → ℕ → Waiting → Option Waiting
  wait_after p cond w = condvar_unlock (lock_of p) w >>= condvar_lock cond
