-- ===== src/Sched/Keep.antt =====
-- Changes in kernel/src/userspace/scheduler.c to an entity that leave its place in the queue alone.
use dz_os.Prelude.{ℕ, ◌<◌, ◌≡◌, refl, true, false, List, arith, has}
use dz_os.Sched.State.{Sched, Entity, sched_priority_levels}
use dz_os.Sched.Core.{map_entity}
use dz_os.Sched.Links.{SameLinks, Linked-frame}
use dz_os.Sched.Buckets.{IsQueues}

-- the fields by which the queue knows an entity
pub record SamePlace (e e' : Entity) : Type 0 where
  pub next : e'.next ≡ e.next
  pub prev : e'.prev ≡ e.prev
  pub runqueue_prio : e'.runqueue_prio ≡ e.runqueue_prio
  pub in_runqueue : e'.in_runqueue ≡ e.in_runqueue

-- the fields that hold the queues
pub record SameQueue (s s' : Sched) : Type 0 where
  pub heads : s'.rq.queue_heads ≡ s.rq.queue_heads
  pub tails : s'.rq.queue_tails ≡ s.rq.queue_tails
  pub sizes : s'.rq.queue_sizes ≡ s.rq.queue_sizes
  pub runnable : s'.rq.total_runnable ≡ s.rq.total_runnable

-- A change of entities outside the queues, or of other fields, keeps the queues.
pub ent-IsQueues :
    (s s' : Sched) (q : ℕ → List ℕ)
    → SameQueue s s'
    → ((prio a : ℕ)
        → prio < sched_priority_levels
        → has a (q prio) ≡ true
        → SamePlace (s.ent a) (s'.ent a))
    → IsQueues s q
    → IsQueues s' q
ent-IsQueues s s' q e same v = record {
  buckets = λ prio h. record {
    linked =
        rw (e.heads, e.tails)
          (Linked-frame s.ent s'.ent _ _ 0 (q prio) (v.buckets prio h).linked (links prio h));
    marked = λ a i. ground (arith, (v.buckets prio h).marked a i, same prio a h i);
    size = rw e.sizes (v.buckets prio h).size;
  };
  total = rw e.runnable v.total;
}
  where
    links :
        (prio : ℕ)
        → prio < sched_priority_levels
        → (a : ℕ) → has a (q prio) ≡ true
        → SameLinks (s.ent a) (s'.ent a)
    links prio h a i = record { next = (same prio a h i).next; prev = (same prio a h i).prev }

pub map_entity-IsQueues :
    (f : Entity → Entity) (s : Sched) (p : ℕ) (q : ℕ → List ℕ)
    → SamePlace (s.ent p) (f (s.ent p))
    → IsQueues s q
    → IsQueues (map_entity f s p) q
map_entity-IsQueues f s p q same v =
    ent-IsQueues s (map_entity f s p) q
      (record { heads = refl; tails = refl; sizes = refl; runnable = refl }) place v
  where
    place :
        (prio a : ℕ)
        → prio < sched_priority_levels
        → has a (q prio) ≡ true
        → SamePlace (s.ent a) ((map_entity f s p).ent a)
    place prio a h i = ground (arith, same)

-- A change of an entity that no bucket holds keeps the queues.
pub map_absent-IsQueues :
    (f : Entity → Entity) (s : Sched) (p : ℕ) (q : ℕ → List ℕ)
    → ((prio : ℕ) → prio < sched_priority_levels → has p (q prio) ≡ false)
    → IsQueues s q
    → IsQueues (map_entity f s p) q
map_absent-IsQueues f s p q out v =
    ent-IsQueues s (map_entity f s p) q
      (record { heads = refl; tails = refl; sizes = refl; runnable = refl }) place v
  where
    place :
        (prio a : ℕ)
        → prio < sched_priority_levels
        → has a (q prio) ≡ true
        → SamePlace (s.ent a) ((map_entity f s p).ent a)
    place prio a h i = ground (arith, out prio h)
