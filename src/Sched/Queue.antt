-- ===== src/Sched/Queue.antt =====
-- The run queue of kernel/src/userspace/scheduler.c: `sched_enqueue`, `sched_dequeue`,
-- `sched_pick_next`.
use dz_os.Prelude.{
  ℕ, zero, suc, ◌+◌, ◌-◌, ◌^◌, true, false, not, ◌&&◌, Option, none, some, ltb, leb, ◌==◌,
  if◌then◌else◌, u32, u64, update,
}
use dz_os.Sched.State.{
  Sched, Entity, sched_priority_levels, prio_rt_max, sched_entity_weight, write,
}

unfoldable pub sched_enqueue : Sched → ℕ → Sched
sched_enqueue s p =
    let rq = s.rq in
    let dyn = (s.ent p).dynamic_priority in
    let prio = if leb sched_priority_levels dyn then sched_priority_levels - 1 else dyn in
    let tail = rq.queue_tails prio in
    let se = record (s.ent p) { next = 0; prev = tail; runqueue_prio = prio; in_runqueue = true } in
    let ent = write p se s.ent in
    record s {
      ent = if tail == 0 then ent else write tail (record (ent tail) { next = p }) ent;
      rq = record rq {
        queue_heads = if tail == 0 then update rq.queue_heads prio p else rq.queue_heads;
        queue_tails = update rq.queue_tails prio p;
        queue_sizes = update rq.queue_sizes prio (u32 (rq.queue_sizes prio + 1));
        total_runnable = u32 (rq.total_runnable + 1);
        total_weight = u64 (rq.total_weight + sched_entity_weight se);
      };
    }

-- `se->prev->next = se->next`, unless `se` is the first
unfoldable pub relink_prev : Entity → (ℕ → Entity) → ℕ → Entity
relink_prev se ent a =
    if not (se.prev == 0) && (a == se.prev) then record (ent a) { next = se.next } else ent a

-- `se->next->prev = se->prev`, unless `se` is the last
unfoldable pub relink_next : Entity → (ℕ → Entity) → ℕ → Entity
relink_next se ent a =
    if not (se.next == 0) && (a == se.next) then record (ent a) { prev = se.prev } else ent a

-- `se` out of the queue
unfoldable pub clear_links : ℕ → (ℕ → Entity) → ℕ → Entity
clear_links p ent a =
    if a == p then record (ent a) { next = 0; prev = 0; in_runqueue = false } else ent a

-- The bucket is the one recorded when the entity was enqueued; the weight is the present one.
unfoldable pub sched_dequeue : Sched → ℕ → Sched
sched_dequeue s p =
    let rq = s.rq in
    let se = s.ent p in
    let prio = se.runqueue_prio in
    let ent = relink_prev se s.ent in
    let se' = ent p in
    let ent' = relink_next se' ent in
    if leb sched_priority_levels prio then s else record s {
      ent = clear_links p ent';
      rq = record rq {
        queue_heads = if se.prev == 0 then update rq.queue_heads prio se.next else rq.queue_heads;
        queue_tails = if se'.next == 0 then update rq.queue_tails prio se'.prev else rq.queue_tails;
        queue_sizes = update rq.queue_sizes prio (u32 (rq.queue_sizes prio + (2 ^ 32 - 1)));
        total_runnable = u32 (rq.total_runnable + (2 ^ 32 - 1));
        total_weight = u64 (rq.total_weight + 2 ^ 64 - sched_entity_weight (ent' p));
      };
    }

-- The walk for the least `vruntime`; `none` means that the fuel ran out.
unfoldable pub pick_best : ℕ → (ℕ → Entity) → ℕ → ℕ → ℕ → Option ℕ
pick_best zero ent best low se = none
pick_best (suc f) ent best low se =
    let v = (ent se).vruntime in
    let less = ltb v low in
    let rest =
      pick_best f ent (if less then se else best) (if less then v else low) (ent se).next in
    if se == 0 then some best else rest

-- The buckets from `prio` on, `k` of them left.
unfoldable pub pick_from : ℕ → ℕ → ℕ → Sched → Option ℕ
pick_from fuel zero prio s = some 0
pick_from fuel (suc k) prio s =
    let se = s.rq.queue_heads prio in
    let rest = pick_from fuel k (prio + 1) s in
    if se == 0
    then rest
    else if leb prio prio_rt_max
    then some se
    else pick_best fuel s.ent se (s.ent se).vruntime (s.ent se).next

-- the process picked, 0 for NULL
unfoldable pub sched_pick_next : ℕ → Sched → Option ℕ
unfolding pick_from pick_best
sched_pick_next fuel s = pick_from fuel sched_priority_levels 0 s
