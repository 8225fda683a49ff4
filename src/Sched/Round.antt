-- ===== src/Sched/Round.antt =====
-- A round of the loop of `scheduler_start` in kernel/src/userspace/scheduler.c on the abstract queue.
use dz_os.Prelude.{
  ℕ, ◌+◌, ◌-◌, ◌^◌, ◌<◌, ◌≡◌, refl, ◌≢◌, true, List, [], ◌∷◌, ◌++◌, arith, u64, update, has,
}
use dz_os.Sched.State.{Sched, runnable, running, sched_priority_levels}
use dz_os.Sched.Queue.{sched_enqueue, sched_dequeue}
use dz_os.Sched.Priority.{sched_check_interactive, sched_update_priority, sched_update_vruntime}
use dz_os.Sched.Core.{map_entity}
use dz_os.Sched.Loop.{dispatch, settle, switched_back}
use dz_os.Sched.Links.{remove}
use dz_os.Sched.Buckets.{bucket, IsQueues, IsAbsent}
use dz_os.Sched.Enqueue.{enqueue-IsQueues}
use dz_os.Sched.Dequeue.{dequeue-IsQueues, dequeue-IsAbsent}
use dz_os.Sched.Keep.{SamePlace, ent-IsQueues}

-- Switching to a process of the run queue takes it out of its bucket, makes it the current one and
-- marks it running.
pub dispatch-IsQueues :
    (now : ℕ) (s : Sched) (q : ℕ → List ℕ) (k p : ℕ)
    → IsQueues s q
    → k < sched_priority_levels
    → has p (q k) ≡ true
    → let s' = dispatch now s p in
      IsQueues s' (update q k (remove p (q k)))
      × IsAbsent (update q k (remove p (q k))) p
      × (s'.rq.curr ≡ p)
      × (s'.state p ≡ running)
unfolding dispatch
dispatch-IsQueues now s q k p v h i = (
  ent-IsQueues s1 (dispatch now s p) q'
      (record { heads = refl; tails = refl; sizes = refl; runnable = refl }) place
      (dequeue-IsQueues s q v k p h i),
  out,
  refl,
  ground arith,
)
  where
    s1 : Sched
    s1 = sched_dequeue s p

    q' : ℕ → List ℕ
    q' = update q k (remove p (q k))

    out : IsAbsent q' p
    out = dequeue-IsAbsent s q v k p h i

    place :
        (prio a : ℕ)
        → prio < sched_priority_levels
        → has a (q' prio) ≡ true
        → SamePlace (s1.ent a) ((dispatch now s p).ent a)
    place prio a hp j = let ne : a ≢ p = ground (arith, out prio hp) in ground arith

-- the state in which `switched_back` settles a process
abbrev pub charged : ℕ → Sched → ℕ → Sched
charged now s p =
    map_entity (λ se. sched_update_priority (sched_check_interactive se))
      (sched_update_vruntime s p (u64 (now + 2 ^ 64 - (s.ent p).exec_start))) p

charged-IsQueues :
    (now : ℕ) (s : Sched) (q : ℕ → List ℕ) (p : ℕ)
    → IsQueues s q
    → IsAbsent q p
    → IsQueues (charged now s p) q
unfolding sched_update_vruntime
charged-IsQueues now s q p v out =
    ent-IsQueues s (charged now s p) q
      (record { heads = refl; tails = refl; sizes = refl; runnable = refl }) place v
  where
    place :
        (prio a : ℕ)
        → prio < sched_priority_levels
        → has a (q prio) ≡ true
        → SamePlace (s.ent a) ((charged now s p).ent a)
    place prio a hp j = let ne : a ≢ p = ground (arith, out prio hp) in ground arith

settle_runnable :
    (now : ℕ) (s : Sched) (p : ℕ)
    → s.state p ≡ runnable
    → settle ((charged now s p).state p) (charged now s p) p ≡ sched_enqueue (charged now s p) p
unfolding settle sched_update_vruntime
settle_runnable now s p run = rw run

-- A process that comes back runnable goes to the end of the bucket of its updated priority; the other
-- buckets stay as they are, and no process is current.
pub switched_back-IsQueues :
    (now : ℕ) (s : Sched) (q : ℕ → List ℕ) (p : ℕ)
    → IsQueues s q
    → IsAbsent q p
    → p ≢ 0
    → s.state p ≡ runnable
    → let k = bucket (charged now s p) p in
      IsQueues (switched_back now s p) (update q k (q k ++ (p ∷ [])))
      × ((switched_back now s p).rq.curr ≡ 0)
unfolding switched_back
switched_back-IsQueues now s q p v out ne run = (
  ent-IsQueues settled (switched_back now s p) q'
      (record { heads = refl; tails = refl; sizes = refl; runnable = refl })
      (λ prio a h i. record { next = refl; prev = refl; runqueue_prio = refl; in_runqueue = refl })
      (rw (settle_runnable now s p run)
        (enqueue-IsQueues s2 p q (charged-IsQueues now s q p v out) ne out)),
  refl,
)
  where
    s2 : Sched
    s2 = charged now s p

    settled : Sched
    settled = settle (s2.state p) s2 p

    q' : ℕ → List ℕ
    q' = update q (bucket s2 p) (q (bucket s2 p) ++ (p ∷ []))
