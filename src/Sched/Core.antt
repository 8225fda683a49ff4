-- ===== src/Sched/Core.antt =====
-- The operations of kernel/src/userspace/scheduler.c on the run queue and a process. `now` is what
-- `rtc_now` returns. The run queue's lock is held throughout each of them.
use dz_os.Prelude.{
  ℕ, ◌+◌, ◌-◌, ◌*◌, ◌/◌, ◌^◌, Bool, true, false, not, ◌&&◌, ltb, leb, ◌==◌, if◌then◌else◌, u32, u64,
  update,
}
use dz_os.Prelude.Int.{ℤ, pos, negsuc, ltb_ℤ}
use dz_os.Sched.State.{
  Sched, Entity, ProcessState, used, sleeping, runnable, running, sched_priority_levels,
  prio_rt_max, prio_normal_min,
}
use dz_os.Sched.Queue.{sched_enqueue, sched_dequeue}
use dz_os.Sched.Priority.{
  sched_check_interactive, sched_update_priority, sched_compute_timeslice, sched_update_vruntime,
}

-- `p->state = t`
abbrev pub set_state : Sched → ℕ → ProcessState → Sched
set_state s p t = record s { state = update s.state p t }

abbrev pub map_entity : (Entity → Entity) → Sched → ℕ → Sched
map_entity f s p = record s { ent = update s.ent p (f (s.ent p)) }

-- an entity after `memset(se, 0, …)`
abbrev zeroed : Entity
zeroed = record {
  vruntime = 0;
  exec_start = 0;
  sum_exec_runtime = 0;
  last_timeslice = 0;
  static_priority = 0;
  dynamic_priority = 0;
  nice = pos 0;
  flag_rt = false;
  flag_interactive = false;
  flag_cpu_bound = false;
  sleep_time = 0;
  last_ran = 0;
  sleep_avg = 0;
  next = 0;
  prev = 0;
  runqueue_prio = 0;
  in_runqueue = false;
}

-- The FPU image that `sched_fork` saves is left out.
unfoldable pub sched_fork : Sched → ℕ → Sched
sched_fork s p =
    let se = record zeroed {
      static_priority = prio_normal_min;
      dynamic_priority = prio_normal_min;
      vruntime = s.rq.min_vruntime;
    } in
    record s {
      ent =
          update s.ent p
            (record se { last_timeslice = sched_compute_timeslice s.rq.total_weight se });
    }

-- the time asleep so far, counted from the last run
unfoldable pub track_sleep : ℕ → Entity → Entity
track_sleep now se =
    let slept = u64 (now + 2 ^ 64 - se.last_ran) in
    if ltb 0 se.last_ran
    then record se {
      sleep_time = u64 (se.sleep_time + slept);
      sleep_avg = u32 (u64 (u32 (se.sleep_avg * 7) + slept) / 8);
    }
    else se

unfoldable pub sched_sleep : ℕ → Sched → ℕ → ℕ → Sched
unfolding track_sleep
sched_sleep now s p wchan =
    let s1 = sched_dequeue (map_entity (track_sleep now) s p) p in
    let s2 = record s1 {
      state = update s1.state p sleeping;
      waiting_channel = update s1.waiting_channel p wchan;
    } in
    map_entity sched_check_interactive s2 p

abbrev pub may_wake : ProcessState → Bool
may_wake sleeping = true
may_wake used = true
may_wake _ = false

unfoldable pub sched_wakeup : Sched → ℕ → Sched
sched_wakeup s p =
    let s1 = record s {
      state = update s.state p runnable;
      waiting_channel = update s.waiting_channel p 0;
    } in
    let s2 = map_entity (λ se. sched_update_priority (record se { next = 0; prev = 0 })) s1 p in
    if may_wake (s.state p) then sched_enqueue s2 p else s

abbrev pub is_running : ProcessState → Bool
is_running running = true
is_running _ = false

abbrev pub is_runnable : ProcessState → Bool
is_runnable runnable = true
is_runnable _ = false

-- `true` says that control goes back to the scheduler, by `scheduler_switch_back`.
unfoldable pub scheduler_preempt : Sched → Sched × Bool
scheduler_preempt s =
    let curr = s.rq.curr in
    if curr == 0
    then (s, false)
    else if is_running (s.state curr)
    then (set_state s curr runnable, true)
    else (s, true)

unfoldable pub scheduler_yield : Sched → Sched × Bool
scheduler_yield s =
    let s' = record s {
      stats = record s.stats { total_yields = u64 (s.stats.total_yields + 1) };
    } in
    if s.running_process == 0 then (s', false) else (set_state s' s.running_process runnable, true)

-- the run time since `exec_start`, charged
abbrev pub charge : ℕ → Sched → ℕ → Sched
charge now s p =
    let start = (s.ent p).exec_start in
    if ltb 0 start
    then map_entity (λ se. record se { exec_start = now })
        (sched_update_vruntime s p (u64 (now + 2 ^ 64 - start))) p
    else s

unfoldable pub scheduler_tick : ℕ → Sched → Sched × Bool
unfolding scheduler_preempt
scheduler_tick now s =
    let s1 = record s {
      stats = record s.stats { total_timer_ticks = u64 (s.stats.total_timer_ticks + 1) };
    } in
    let curr = s.rq.curr in
    let s2 = charge now s1 curr in
    let se = s2.ent curr in
    let s3 = record s2 {
      stats = record s2.stats { total_preemptions = u64 (s2.stats.total_preemptions + 1) };
    } in
    if curr == 0
    then (s1, false)
    else if not (is_running (s.state curr))
    then (s1, false)
    else if leb se.last_timeslice (u64 (now + 2 ^ 64 - se.last_ran))
    then scheduler_preempt s3
    else (s2, false)

-- `sched_timer_handler` reads the clock once for the queue and once in the tick.
unfoldable pub sched_timer_handler : ℕ → ℕ → Sched → Sched × Bool
unfolding scheduler_tick
sched_timer_handler clock now s =
    scheduler_tick now (record s { rq = record s.rq { clock = clock } })

-- a runnable process that is enqueued changes its bucket
abbrev pub requeue : Sched → ℕ → Sched
requeue s p =
    if is_runnable (s.state p) && (s.ent p).in_runqueue
    then sched_enqueue (sched_dequeue s p) p
    else s

unfoldable pub sched_set_priority : Sched → ℕ → ℕ → Sched
sched_set_priority s p prio =
    let s' =
      map_entity
        (λ se. record se {
          static_priority = prio;
          dynamic_priority = prio;
          flag_rt = leb prio prio_rt_max;
        })
        s p in
    if leb sched_priority_levels prio then s else requeue s' p

-- `nice` within -20 and 19
unfoldable pub clamp_nice : ℤ → ℤ
clamp_nice n =
    let low = if ltb_ℤ n (negsuc 19) then negsuc 19 else n in
    if ltb_ℤ (pos 19) low then pos 19 else low

unfoldable pub sched_nice : Sched → ℕ → ℤ → Sched
unfolding clamp_nice
sched_nice s p n =
    requeue (map_entity (λ se. sched_update_priority (record se { nice = clamp_nice n })) s p) p
