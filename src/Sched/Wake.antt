-- ===== src/Sched/Wake.antt =====
-- `sched_wakeup` and `sched_set_priority` of kernel/src/userspace/scheduler.c on the abstract queue.
use dz_os.Prelude.{
  ℕ, ◌<◌, ◌≡◌, refl, ◌≢◌, true, false, List, [], ◌∷◌, ◌++◌, arith, leb, update, has,
}
use dz_os.Sched.State.{Sched, Entity, runnable, sched_priority_levels, prio_rt_max}
use dz_os.Sched.Queue.{sched_enqueue, sched_dequeue}
use dz_os.Sched.Priority.{sched_update_priority}
use dz_os.Sched.Core.{sched_wakeup, sched_set_priority, map_entity, may_wake, is_runnable}
use dz_os.Sched.Links.{remove}
use dz_os.Sched.Buckets.{bucket, IsQueues, IsAbsent}
use dz_os.Sched.Enqueue.{enqueue-IsQueues}
use dz_os.Sched.Dequeue.{dequeue-IsQueues, dequeue-IsAbsent, dequeue_dynamic, ne_null}
use dz_os.Sched.Keep.{ent-IsQueues, map_entity-IsQueues, map_absent-IsQueues}

-- the entity of `p` as `sched_wakeup` enqueues it
abbrev pub woken : Entity → Entity
woken se = sched_update_priority (record se { next = 0; prev = 0 })

abbrev marked_runnable : Sched → ℕ → Sched
marked_runnable s p = record s {
  state = update s.state p runnable;
  waiting_channel = update s.waiting_channel p 0;
}

marked-IsQueues :
    (s : Sched) (p : ℕ) (q : ℕ → List ℕ) → IsQueues s q → IsQueues (marked_runnable s p) q
marked-IsQueues s p q v =
    ent-IsQueues s (marked_runnable s p) q
      (record { heads = refl; tails = refl; sizes = refl; runnable = refl })
      (λ prio a h i. record { next = refl; prev = refl; runqueue_prio = refl; in_runqueue = refl })
      v

enqueue_keeps :
    (s : Sched) (p : ℕ)
    → ((sched_enqueue s p).state ≡ s.state)
      × ((sched_enqueue s p).waiting_channel ≡ s.waiting_channel)
unfolding sched_enqueue
enqueue_keeps s p = (refl, refl)

-- Waking a process that sleeps, or was just created, and that no bucket holds appends it to the bucket
-- of its updated priority, makes it runnable and clears its waiting channel.
pub wakeup-IsQueues :
    (s : Sched) (p : ℕ) (q : ℕ → List ℕ)
    → IsQueues s q
    → p ≢ 0
    → IsAbsent q p
    → may_wake (s.state p) ≡ true
    → let k = bucket (map_entity woken (marked_runnable s p) p) p in
      IsQueues (sched_wakeup s p) (update q k (q k ++ (p ∷ [])))
      × ((sched_wakeup s p).state p ≡ runnable)
      × ((sched_wakeup s p).waiting_channel p ≡ 0)
unfolding sched_wakeup
wakeup-IsQueues s p q v ne out may = rw may (
  enqueue-IsQueues s2 p q
      (map_absent-IsQueues woken (marked_runnable s p) p q out (marked-IsQueues s p q v)) ne out,
  ground (arith, enqueue_keeps s2 p),
  ground (arith, enqueue_keeps s2 p),
)
  where
    s2 : Sched
    s2 = map_entity woken (marked_runnable s p) p

-- Any other process is left as it is.
pub wakeup_ignored : (s : Sched) (p : ℕ) → may_wake (s.state p) ≡ false → sched_wakeup s p ≡ s
unfolding sched_wakeup
wakeup_ignored s p h = rw h

abbrev pub prioritised : ℕ → Entity → Entity
prioritised prio se = record se {
  static_priority = prio;
  dynamic_priority = prio;
  flag_rt = leb prio prio_rt_max;
}

-- A new priority for a runnable process that is enqueued moves it from its bucket to the end of the
-- bucket of that priority; the other buckets stay as they are.
pub set_priority-IsQueues :
    (s : Sched) (p prio k : ℕ) (q : ℕ → List ℕ)
    → IsQueues s q
    → k < sched_priority_levels
    → has p (q k) ≡ true
    → s.state p ≡ runnable
    → prio < sched_priority_levels
    → let q' = update q k (remove p (q k)) in
      IsQueues (sched_set_priority s p prio) (update q' prio (q' prio ++ (p ∷ [])))
unfolding sched_set_priority
set_priority-IsQueues s p prio k q v hk i run h =
    rw (small, run', flag) (rw at at (enqueue-IsQueues s2 p q' dequeued absent out))
  where
    s1 : Sched
    s1 = map_entity (prioritised prio) s p

    q' : ℕ → List ℕ
    q' = update q k (remove p (q k))

    v1 : IsQueues s1 q
    v1 =
        map_entity-IsQueues (prioritised prio) s p q
          (record { next = refl; prev = refl; runqueue_prio = refl; in_runqueue = refl }) v

    s2 : Sched
    s2 = sched_dequeue s1 p

    dequeued : IsQueues s2 q'
    dequeued = dequeue-IsQueues s1 q v1 k p hk i

    absent : p ≢ 0
    absent = ne_null s1 q v1 k p hk i

    out : IsAbsent q' p
    out = dequeue-IsAbsent s1 q v1 k p hk i

    own : (s1.ent p).dynamic_priority ≡ prio
    own = ground arith

    at : bucket s2 p ≡ prio
    at = ground (arith, dequeue_dynamic s1 q v1 k p hk i, own)

    small : leb sched_priority_levels prio ≡ false
    small = ground arith

    run' : is_runnable (s.state p) ≡ true
    run' = rw run

    flag : (s1.ent p).in_runqueue ≡ true
    flag = ((v1.buckets k hk).marked p i).flagged
