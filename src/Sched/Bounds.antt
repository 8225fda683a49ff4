-- ===== src/Sched/Bounds.antt =====
-- Bounds on the priorities, time slices and virtual run times of kernel/src/userspace/scheduler.c.
use dz_os.Prelude.{ℕ, ◌≤◌, ◌≡◌, ap, true, false, arith}
use dz_os.Prelude.Int.{ℤ, pos, negsuc, ◌+ℤ◌, ◌≤ℤ◌}
use dz_os.Sched.State.{
  Entity, sched_min_timeslice_us, sched_max_timeslice_us, prio_normal_min, prio_idle_max,
}
use dz_os.Sched.Priority.{
  clamp_priority, adjustment, sched_update_priority, sched_compute_timeslice,
}

clamp_priority_lem :
    (n : ℤ)
    → (prio_normal_min ≤ clamp_priority n)
      × (clamp_priority n ≤ prio_idle_max)
      × (pos prio_normal_min ≤ℤ n → n ≤ℤ pos prio_idle_max → pos (clamp_priority n) ≡ n)
      × (n ≤ℤ pos prio_normal_min → clamp_priority n ≡ prio_normal_min)
      × (pos prio_idle_max ≤ℤ n → clamp_priority n ≡ prio_idle_max)
unfolding clamp_priority
clamp_priority_lem (pos n) =
    (ground arith, ground arith, λ a b. ap pos (ground arith), λ a. ground arith, λ a. ground arith)
clamp_priority_lem (negsuc n) = ground arith

update_dynamic :
    (se : Entity)
    → se.flag_rt ≡ false
    → (sched_update_priority se).dynamic_priority
      ≡ clamp_priority (pos se.static_priority +ℤ adjustment se)
unfolding sched_update_priority
update_dynamic se h = rw h

update_rt :
    (se : Entity)
    → se.flag_rt ≡ true
    → (sched_update_priority se).dynamic_priority ≡ se.dynamic_priority
unfolding sched_update_priority
update_rt se h = rw h

-- The dynamic priority after an update: unchanged for a real-time process; else within 3 and 7, the
-- static priority shifted by the adjustment where that lies in the range, and the bound it passes
-- where it does not.
pub update_priority_lem :
    (se : Entity)
    → let new = (sched_update_priority se).dynamic_priority in
      let wanted = pos se.static_priority +ℤ adjustment se in
      (se.flag_rt ≡ true → new ≡ se.dynamic_priority)
      × (se.flag_rt ≡ false → (prio_normal_min ≤ new) × (new ≤ prio_idle_max))
      × (se.flag_rt ≡ false
          → pos prio_normal_min ≤ℤ wanted
          → wanted ≤ℤ pos prio_idle_max
          → pos new ≡ wanted)
      × (se.flag_rt ≡ false → wanted ≤ℤ pos prio_normal_min → new ≡ prio_normal_min)
      × (se.flag_rt ≡ false → pos prio_idle_max ≤ℤ wanted → new ≡ prio_idle_max)
update_priority_lem se =
    let c = clamp_priority_lem (pos se.static_priority +ℤ adjustment se) in
    (
      update_rt se,
      λ h. rw (update_dynamic se h) (c.0, c.1),
      λ h. rw (update_dynamic se h) c.2,
      λ h. rw (update_dynamic se h) c.3,
      λ h. rw (update_dynamic se h) c.4,
    )

-- The adjustment lies within -6 and 6 for a nice value within -20 and 19.
pub adjustment_bounds :
    (se : Entity)
    → negsuc 19 ≤ℤ se.nice
    → se.nice ≤ℤ pos 19
    → (negsuc 5 ≤ℤ adjustment se) × (adjustment se ≤ℤ pos 5)
unfolding adjustment
adjustment_bounds se lo hi = ground arith

-- A time slice lies within 2000 and 16000 microseconds; an interactive process that is not real-time
-- gets up to half as much again.
pub timeslice_bounds :
    (total : ℕ) (se : Entity)
    → let slice = sched_compute_timeslice total se in
      (sched_min_timeslice_us ≤ slice)
      × (slice ≤ 24000)
      × (se.flag_interactive ≡ false → slice ≤ sched_max_timeslice_us)
      × (se.flag_rt ≡ true → slice ≡ sched_max_timeslice_us)
unfolding sched_compute_timeslice
timeslice_bounds total se = ground arith
