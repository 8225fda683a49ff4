-- ===== src/Sched/Loop.antt =====
-- The loop of `scheduler_start` in kernel/src/userspace/scheduler.c: filling the run queue from the
-- process table, switching to a process, and taking it back. Idling, the hardware context and the
-- release of an exited process's memory are left out.
use dz_os.Prelude.{ℕ, ◌+◌, ◌-◌, ◌^◌, not, ◌&&◌, List, [], ◌∷◌, ◌==◌, if◌then◌else◌, u64, update}
use dz_os.Sched.State.{Sched, ProcessState, unused, used, sleeping, runnable, running, exited}
use dz_os.Sched.Queue.{sched_enqueue, sched_dequeue}
use dz_os.Sched.Priority.{
  sched_check_interactive, sched_update_priority, sched_compute_timeslice, sched_update_vruntime,
}
use dz_os.Sched.Core.{set_state, map_entity, is_runnable}

-- One round over the process table: a runnable process that is not enqueued is.
unfoldable pub requeue_process : Sched → ℕ → Sched
requeue_process s p =
    if p == 0
    then s
    else if is_runnable (s.state p) && not (s.ent p).in_runqueue
    then sched_enqueue (map_entity (λ se. record se { next = 0; prev = 0 }) s p) p
    else s

-- the table's first `process_count` entries in order; 0 is an empty one
unfoldable pub rebuild : List ℕ → Sched → Sched
rebuild [] s = s
rebuild (p ∷ ps) s = rebuild ps (requeue_process s p)

-- From the pick of `p` to the switch to it; `now` is the clock when its slice begins.
unfoldable pub dispatch : ℕ → Sched → ℕ → Sched
dispatch now s p =
    let s1 = sched_dequeue s p in
    let s2 = record s1 { rq = record s1.rq { curr = p }; state = update s1.state p running } in
    let s3 =
      map_entity
        (λ se. record se {
          exec_start = now;
          last_ran = now;
          last_timeslice = sched_compute_timeslice s2.rq.total_weight se;
        })
        s2 p in
    record s3 {
      running_process = p;
      stats = record s3.stats { total_switches = u64 (s3.stats.total_switches + 1) };
    }

-- What becomes of `p`, by the state in which it came back. One that is still RUNNING is not enqueued.
-- Of an exited process the state is followed, not the release of its memory.
unfoldable pub settle : ProcessState → Sched → ℕ → Sched
settle runnable s p = sched_enqueue s p
settle sleeping s p = s
settle exited s p = set_state s p unused
settle running s p = s
settle unused s p = sched_enqueue (set_state s p runnable) p
settle used s p = sched_enqueue (set_state s p runnable) p

-- From the switch back to the end of the round.
unfoldable pub switched_back : ℕ → Sched → ℕ → Sched
unfolding settle
switched_back now s p =
    let s1 = sched_update_vruntime s p (u64 (now + 2 ^ 64 - (s.ent p).exec_start)) in
    let s2 = map_entity (λ se. sched_update_priority (sched_check_interactive se)) s1 p in
    let s3 = settle (s2.state p) s2 p in
    record s3 { rq = record s3.rq { curr = 0 }; running_process = 0 }
