-- ===== src/Sched/Priority.antt =====
-- Priorities, time slices and virtual run time in kernel/src/userspace/scheduler.c.
use dz_os.Prelude.{ℕ, ◌+◌, ◌*◌, ◌/◌, true, false, ◌&&◌, ltb, ◌==◌, if◌then◌else◌, u8, u64, update}
use dz_os.Prelude.Int.{ℤ, pos, negsuc, pos_part, ltb_ℤ, quot, ◌+ℤ◌}
use dz_os.Sched.State.{
  Sched, Entity, sched_min_timeslice_us, sched_max_timeslice_us, prio_normal_min, prio_idle_max,
  sched_entity_weight,
}

-- `ratio` in `sched_check_interactive`
abbrev pub sleep_ratio : Entity → ℕ
sleep_ratio se = u64 (se.sleep_time * 100) / se.sum_exec_runtime

unfoldable pub sched_check_interactive : Entity → Entity
sched_check_interactive se =
    if ltb 0 se.sleep_time && ltb 0 se.sum_exec_runtime
    then (if ltb 150 (sleep_ratio se)
        then record se { flag_interactive = true }
        else if ltb (sleep_ratio se) 50
        then record se { flag_interactive = false; flag_cpu_bound = true }
        else se)
    else se

-- the shift by the flags and the nice value
unfoldable pub adjustment : Entity → ℤ
adjustment se =
    (if se.flag_cpu_bound then pos 1 else if se.flag_interactive then negsuc 0 else pos 0)
    +ℤ quot se.nice 4

-- `new_prio` held within 3 and 7
unfoldable pub clamp_priority : ℤ → ℕ
clamp_priority new_prio =
    let low = if ltb_ℤ new_prio (pos prio_normal_min) then pos prio_normal_min else new_prio in
    let new = if ltb_ℤ (pos prio_idle_max) low then pos prio_idle_max else low in u8 (pos_part new)

unfoldable pub sched_update_priority : Entity → Entity
unfolding clamp_priority
sched_update_priority se =
    if se.flag_rt
    then se
    else record se { dynamic_priority = clamp_priority (pos se.static_priority +ℤ adjustment se) }

unfoldable pub sched_compute_timeslice : ℕ → Entity → ℕ
sched_compute_timeslice total_weight se =
    let share = u64 (sched_max_timeslice_us * sched_entity_weight se) / total_weight in
    let low = if ltb share sched_min_timeslice_us then sched_min_timeslice_us else share in
    let slice = if ltb sched_max_timeslice_us low then sched_max_timeslice_us else low in
    if se.flag_rt
    then sched_max_timeslice_us
    else if total_weight == 0
    then sched_max_timeslice_us
    else if se.flag_interactive
    then slice * 3 / 2
    else slice

-- `sched_update_vruntime` of the entity at `p`
unfoldable pub sched_update_vruntime : Sched → ℕ → ℕ → Sched
sched_update_vruntime s p delta =
    let se = s.ent p in
    let v = u64 (se.vruntime + u64 (delta * 1024) / sched_entity_weight se) in
    record s {
      ent =
          update s.ent p
            (record se { vruntime = v; sum_exec_runtime = u64 (se.sum_exec_runtime + delta) });
      rq = record s.rq { min_vruntime = if ltb v s.rq.min_vruntime then v else s.rq.min_vruntime };
    }
