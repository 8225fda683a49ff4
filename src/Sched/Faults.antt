-- ===== src/Sched/Faults.antt =====
-- Sleep of the running process and changes of priority in kernel/src/userspace/scheduler.c.
use dz_os.Prelude.{
  ℕ, zero, suc, ◌+◌, ◌-◌, ◌^◌, ◌<◌, ◌≡◌, refl, ◌∙◌, ◌≢◌, inl, inr, Bool, true, false, List, arith,
  leb, if◌then◌else◌, u32, u64, Bool-cases, get_or, has,
}
use dz_os.Sched.State.{weights, Sched, Entity, sched_priority_levels, sched_entity_weight}
use dz_os.Sched.Queue.{sched_enqueue, sched_dequeue, relink_prev, relink_next, clear_links}
use dz_os.Sched.Core.{sched_sleep, sched_set_priority, map_entity, track_sleep, requeue}
use dz_os.Sched.Loop.{dispatch}
use dz_os.Sched.Buckets.{IsQueues}
use dz_os.Sched.Keep.{map_entity-IsQueues}
use dz_os.Sched.Wake.{prioritised}
use dz_os.Sched.Dequeue.{dequeue_self, dequeue_dynamic, dequeue_weight}

-- A process that is out of the queue, with its old bucket on record.
pub record IsDetached (k : ℕ) (e : Entity) : Type 0 where
  pub next : e.next ≡ 0
  pub prev : e.prev ≡ 0
  pub recorded : e.runqueue_prio ≡ k

-- a process other than `p` keeps its flag when `p` is dequeued
relink_prev_flag :
    (e : Entity) (ent : ℕ → Entity) (a : ℕ)
    → (relink_prev e ent a).in_runqueue ≡ (ent a).in_runqueue
unfolding relink_prev
relink_prev_flag e ent a = ground arith

relink_next_flag :
    (e : Entity) (ent : ℕ → Entity) (a : ℕ)
    → (relink_next e ent a).in_runqueue ≡ (ent a).in_runqueue
unfolding relink_next
relink_next_flag e ent a = ground arith

clear_flag :
    (p : ℕ) (ent : ℕ → Entity) (a : ℕ)
    → a ≢ p
    → (clear_links p ent a).in_runqueue ≡ (ent a).in_runqueue
unfolding clear_links
clear_flag p ent a ne = ground arith

dequeue_flag :
    (s : Sched) (p a : ℕ) → a ≢ p → ((sched_dequeue s p).ent a).in_runqueue ≡ (s.ent a).in_runqueue
unfolding sched_dequeue
dequeue_flag s p a ne =
    let se = s.ent p in
    let ent = relink_prev se s.ent in
    let flag : (clear_links p (relink_next (ent p) ent) a).in_runqueue ≡ (s.ent a).in_runqueue =
      clear_flag p (relink_next (ent p) ent) a ne
      ∙ relink_next_flag (ent p) ent a
      ∙ relink_prev_flag se s.ent a in
    elim (Bool-cases (leb sched_priority_levels se.runqueue_prio)) [
      | inl out ↦ rw out
      | inr small ↦ rw small flag
    ]

module _ (s : Sched) (p k : ℕ) (d : IsDetached k (s.ent p)) (h : k < sched_priority_levels) where
  relink_detached : relink_prev (s.ent p) s.ent p ≡ s.ent p
  unfolding relink_prev
  relink_detached = ground arith

  -- A second dequeue empties the bucket and counts the process out again.
  dequeue_twice :
      let s' = sched_dequeue s p in
      (s'.rq.queue_heads k ≡ 0)
      × (s'.rq.queue_tails k ≡ 0)
      × (s'.rq.total_runnable ≡ u32 (s.rq.total_runnable + (2 ^ 32 - 1)))
  unfolding sched_dequeue
  dequeue_twice =
      let small : leb sched_priority_levels k ≡ false = ground arith in
      rw (relink_detached, d.prev, d.next, d.recorded, small) (ground arith, ground arith, refl)

track_place : (now k : ℕ) (e : Entity) → IsDetached k e → IsDetached k (track_sleep now e)
unfolding track_sleep
track_place now k e d = ground arith

track_flag : (now : ℕ) (e : Entity) → (track_sleep now e).in_runqueue ≡ e.in_runqueue
unfolding track_sleep
track_flag now e = ground arith

sleep_detached :
    (now wchan k p : ℕ) (s : Sched)
    → IsDetached k (s.ent p)
    → k < sched_priority_levels
    → let s' = sched_sleep now s p wchan in
      (s'.rq.queue_heads k ≡ 0)
      × (s'.rq.queue_tails k ≡ 0)
      × (s'.rq.total_runnable ≡ u32 (s.rq.total_runnable + (2 ^ 32 - 1)))
unfolding sched_sleep
sleep_detached now wchan k p s d h = dequeue_twice (map_entity (track_sleep now) s p) p k at h
  where
    at : IsDetached k ((map_entity (track_sleep now) s p).ent p)
    at = ground (arith, track_place now k (s.ent p) d)

IsDetached-after :
    (now k p : ℕ) (s : Sched) (q : ℕ → List ℕ)
    → IsQueues s q
    → k < sched_priority_levels
    → has p (q k) ≡ true
    → IsDetached k ((dispatch now s p).ent p)
unfolding dispatch
IsDetached-after now k p s q v h i =
    ground (arith, dequeue_self s q v k p h i, ((v.buckets k h).marked p i).recorded)

-- When the process that runs goes to sleep, the bucket that it was picked from is emptied: its head and
-- tail are NULL, whatever other processes it held.
pub sleep-empties-bucket :
    (now later wchan k p : ℕ) (s : Sched) (q : ℕ → List ℕ)
    → IsQueues s q
    → k < sched_priority_levels
    → has p (q k) ≡ true
    → let s' = sched_sleep later (dispatch now s p) p wchan in
      (s'.rq.queue_heads k ≡ 0)
      × (s'.rq.queue_tails k ≡ 0)
      × (s'.rq.total_runnable ≡ u32 ((dispatch now s p).rq.total_runnable + (2 ^ 32 - 1)))
sleep-empties-bucket now later wchan k p s q v h i =
    sleep_detached later wchan k p (dispatch now s p) (IsDetached-after now k p s q v h i) h

weight-lt : (e : Entity) → sched_entity_weight e < 2 ^ 17
unfolding sched_entity_weight
weight-lt e = go e.dynamic_priority
  where
    go : (d : ℕ) → get_or weights d 0 < 2 ^ 17
    go zero = omega arith
    go (suc zero) = omega arith
    go (suc (suc zero)) = omega arith
    go (suc (suc (suc zero))) = omega arith
    go (suc (suc (suc (suc zero)))) = omega arith
    go (suc (suc (suc (suc (suc zero))))) = omega arith
    go (suc (suc (suc (suc (suc (suc zero)))))) = omega arith
    go (suc (suc (suc (suc (suc (suc (suc zero))))))) = omega arith
    go (suc (suc (suc (suc (suc (suc (suc (suc d)))))))) = omega arith

weight_of :
    (e e' : Entity)
    → e.dynamic_priority ≡ e'.dynamic_priority
    → sched_entity_weight e ≡ sched_entity_weight e'
unfolding sched_entity_weight
weight_of e e' h = rw h

enqueue_weight :
    (s : Sched) (p : ℕ)
    → (sched_enqueue s p).rq.total_weight ≡ u64 (s.rq.total_weight + sched_entity_weight (s.ent p))
unfolding sched_enqueue sched_entity_weight
enqueue_weight s p = refl

weight_if :
    (b : Bool) (n : ℕ) (x y : Sched)
    → x.rq.total_weight ≡ n
    → y.rq.total_weight ≡ n
    → (if b then x else y).rq.total_weight ≡ n
weight_if true n x y hx hy = hx
weight_if false n x y hx hy = hy

requeue_weight :
    (s : Sched) (p k : ℕ) (q : ℕ → List ℕ)
    → IsQueues s q
    → k < sched_priority_levels
    → has p (q k) ≡ true
    → s.rq.total_weight < 2 ^ 64
    → (requeue s p).rq.total_weight ≡ s.rq.total_weight
requeue_weight s p k q v hk i w =
    weight_if _ s.rq.total_weight (sched_enqueue (sched_dequeue s p) p) s
      (omega (
        arith,
        enqueue_weight (sched_dequeue s p) p,
        dequeue_weight s q v k p hk i,
        weight_of ((sched_dequeue s p).ent p) (s.ent p) (dequeue_dynamic s q v k p hk i),
        weight-lt (s.ent p),
      ))
      refl

-- Changing the priority of a runnable process on the queue leaves `total_weight` as it was: the weight
-- taken off is already that of the new priority, not the one that was added with the old.
pub set_priority-total_weight :
    (s : Sched) (p prio k : ℕ) (q : ℕ → List ℕ)
    → IsQueues s q
    → k < sched_priority_levels
    → has p (q k) ≡ true
    → s.rq.total_weight < 2 ^ 64
    → (sched_set_priority s p prio).rq.total_weight ≡ s.rq.total_weight
unfolding sched_set_priority
set_priority-total_weight s p prio k q v hk i w =
    weight_if (leb sched_priority_levels prio) s.rq.total_weight s (requeue s' p) refl
      (requeue_weight s' p k q v' hk i w)
  where
    s' : Sched
    s' = map_entity (prioritised prio) s p

    v' : IsQueues s' q
    v' =
        map_entity-IsQueues (prioritised prio) s p q
          (record { next = refl; prev = refl; runqueue_prio = refl; in_runqueue = refl }) v
