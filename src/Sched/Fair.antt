-- ===== src/Sched/Fair.antt =====
-- The least virtual run time of kernel/src/userspace/scheduler.c over any run of its operations.
use dz_os.Prelude.{
  ℕ, ◌+◌, ◌-◌, ◌^◌, ◌≤◌, ◌≡◌, refl, ◌∙◌, inl, inr, Bool, true, false, not, ◌&&◌, arith, ltb, leb,
  ◌==◌, if◌then◌else◌, u64, Bool-cases,
}
use dz_os.Prelude.Int.{ℤ}
use dz_os.Sched.State.{Sched, ProcessState, unused, used, sleeping, runnable, running, exited}
use dz_os.Sched.Queue.{sched_enqueue, sched_dequeue}
use dz_os.Sched.Priority.{sched_check_interactive, sched_update_priority, sched_update_vruntime}
use dz_os.Sched.Core.{
  sched_fork, sched_sleep, sched_wakeup, scheduler_preempt, scheduler_yield, scheduler_tick,
  sched_timer_handler, sched_set_priority, sched_nice, set_state, requeue, is_running, charge,
  may_wake, is_runnable, map_entity,
}
use dz_os.Sched.Loop.{requeue_process, dispatch, settle, switched_back}

-- One operation of the scheduler, on any process and at any time.
pub data Step (s : Sched) : Sched → Type 0 where
  fork : (p : ℕ) → Step s (sched_fork s p)
  sleep : (now p wchan : ℕ) → Step s (sched_sleep now s p wchan)
  wakeup : (p : ℕ) → Step s (sched_wakeup s p)
  timer : (clock now : ℕ) → Step s (sched_timer_handler clock now s).0
  preempt : Step s (scheduler_preempt s).0
  yield : Step s (scheduler_yield s).0
  set_priority : (p prio : ℕ) → Step s (sched_set_priority s p prio)
  nice : (p : ℕ) (n : ℤ) → Step s (sched_nice s p n)
  requeued : (p : ℕ) → Step s (requeue_process s p)
  switch : (now p : ℕ) → Step s (dispatch now s p)
  back : (now p : ℕ) → Step s (switched_back now s p)

pub data Reach (s : Sched) : Sched → Type 0 where
  here : Reach s s
  next : {t u : Sched} → Reach s t → Step t u → Reach s u

abbrev Kept : Sched → Sched → Type 0
Kept s s' = s'.rq.min_vruntime ≡ s.rq.min_vruntime

enqueue_min : (s : Sched) (p : ℕ) → Kept s (sched_enqueue s p)
unfolding sched_enqueue
enqueue_min s p = refl

dequeue_min : (s : Sched) (p : ℕ) → Kept s (sched_dequeue s p)
unfolding sched_dequeue
dequeue_min s p = elim (Bool-cases (leb 8 (s.ent p).runqueue_prio)) [ inl e ↦ rw e | inr e ↦ rw e ]

update_min :
    (s : Sched) (p d : ℕ) → (sched_update_vruntime s p d).rq.min_vruntime ≤ s.rq.min_vruntime
unfolding sched_update_vruntime
update_min s p d = ground arith

settle_min : (t : ProcessState) (s : Sched) (p : ℕ) → Kept s (settle t s p)
unfolding settle
settle_min runnable s p = enqueue_min s p
settle_min sleeping s p = refl
settle_min exited s p = refl
settle_min running s p = refl
settle_min unused s p = enqueue_min (set_state s p runnable) p
settle_min used s p = enqueue_min (set_state s p runnable) p

preempt_min : (s : Sched) → Kept s (scheduler_preempt s).0
unfolding scheduler_preempt
preempt_min s = elim (Bool-cases (s.rq.curr == 0)) [
  | inl e ↦ rw e
  | inr e ↦
      rw e (elim (Bool-cases (is_running (s.state s.rq.curr))) [ inl r ↦ rw r | inr r ↦ rw r ])
]

Kept-if : (b : Bool) (s t u : Sched) → Kept s t → Kept s u → Kept s (if b then t else u)
Kept-if true s t u ht hu = ht
Kept-if false s t u ht hu = hu

-- a result whose least virtual run time is at most `n`
abbrev Below : ℕ → Sched → Type 0
Below n s = s.rq.min_vruntime ≤ n

Below-if :
    (n : ℕ) (b : Bool) (x y : Sched × Bool)
    → Below n x.0
    → Below n y.0
    → Below n (if b then x else y).0
Below-if n true x y hx hy = hx
Below-if n false x y hx hy = hy

Below-one : (n : ℕ) (b : Bool) (x y : Sched) → Below n x → Below n y → Below n (if b then x else y)
Below-one n true x y hx hy = hx
Below-one n false x y hx hy = hy

requeue_min : (s : Sched) (p : ℕ) → Kept s (requeue s p)
requeue_min s p =
    Kept-if _ s (sched_enqueue (sched_dequeue s p) p) s
      (enqueue_min (sched_dequeue s p) p ∙ dequeue_min s p) refl

charge_min : (now : ℕ) (s : Sched) (p : ℕ) → Below s.rq.min_vruntime (charge now s p)
charge_min now s p =
    Below-one s.rq.min_vruntime (ltb 0 (s.ent p).exec_start) _ s
      (update_min s p (u64 (now + 2 ^ 64 - (s.ent p).exec_start))) (omega arith)

tick_min : (now : ℕ) (s : Sched) → Below s.rq.min_vruntime (scheduler_tick now s).0
unfolding scheduler_tick
tick_min now s = elim (Bool-cases (s.rq.curr == 0)) [
  | inl e ↦ rw e (omega arith)
  | inr e ↦ rw e (elim (Bool-cases (not (is_running (s.state s.rq.curr)))) [
    | inl r ↦ rw r (omega arith)
    | inr r ↦ rw r (
        charged (
          leb (s2.ent s.rq.curr).last_timeslice (u64 (now + 2 ^ 64 - (s2.ent s.rq.curr).last_ran))))
  ])
]
  where
    s1 : Sched
    s1 = record s {
      stats = record s.stats { total_timer_ticks = u64 (s.stats.total_timer_ticks + 1) };
    }

    s2 : Sched
    s2 = charge now s1 s.rq.curr

    s3 : Sched
    s3 = record s2 {
      stats = record s2.stats { total_preemptions = u64 (s2.stats.total_preemptions + 1) };
    }

    charged :
        (b : Bool) → Below s.rq.min_vruntime (if b then scheduler_preempt s3 else (s2, false)).0
    charged b =
        Below-if s.rq.min_vruntime b (scheduler_preempt s3) (s2, false)
          (rw (preempt_min s3) (charge_min now s1 s.rq.curr)) (charge_min now s1 s.rq.curr)

requeued_min : (s : Sched) (p : ℕ) → Kept s (requeue_process s p)
unfolding requeue_process
requeued_min s p =
    Kept-if (p == 0) s s _ refl
      (Kept-if (is_runnable (s.state p) && not (s.ent p).in_runqueue) s _ s (enqueue_min _ p) refl)

back_min : (now : ℕ) (s : Sched) (p : ℕ) → Below s.rq.min_vruntime (switched_back now s p)
unfolding switched_back
back_min now s p =
    let d = u64 (now + 2 ^ 64 - (s.ent p).exec_start) in
    let s2 =
      map_entity (λ se. sched_update_priority (sched_check_interactive se))
        (sched_update_vruntime s p d) p in
    omega (arith, settle_min (s2.state p) s2 p, update_min s p d)

Step-min : {s t : Sched} → Step s t → t.rq.min_vruntime ≤ s.rq.min_vruntime
unfolding sched_fork sched_sleep sched_wakeup scheduler_yield sched_timer_handler sched_set_priority
    sched_nice requeue_process dispatch switched_back
Step-min {s} (fork p) = omega arith
Step-min {s} (sleep now p wchan) = omega (arith, dequeue_min _ p)
Step-min {s} (wakeup p) =
    Below-one _ (may_wake (s.state p)) _ s (omega (arith, enqueue_min _ p)) (omega arith)
Step-min {s} (timer clock now) = tick_min now (record s { rq = record s.rq { clock = clock } })
Step-min {s} preempt = omega (arith, preempt_min s)
Step-min {s} yield = Below-if _ (s.running_process == 0) _ _ (omega arith) (omega arith)
Step-min {s} (set_priority p prio) =
    Below-one _ (leb 8 prio) s _ (omega arith) (omega (arith, requeue_min _ p))
Step-min {s} (nice p n) = omega (arith, requeue_min _ p)
Step-min {s} (requeued p) = omega (arith, requeued_min s p)
Step-min {s} (switch now p) = omega (arith, dequeue_min s p)
Step-min {s} (back now p) = back_min now s p

Reach-min : {s t : Sched} → Reach s t → t.rq.min_vruntime ≤ s.rq.min_vruntime
Reach-min here = omega arith
Reach-min (next r st) = omega (arith, Reach-min r, Step-min st)

-- No run of the scheduler's operations raises the least virtual run time. It starts at 0, so every new
-- process starts with virtual run time 0, whatever the others have run.
pub fork_vruntime :
    (s t : Sched) (p : ℕ)
    → s.rq.min_vruntime ≡ 0
    → Reach s t
    → (t.rq.min_vruntime ≡ 0) × (((sched_fork t p).ent p).vruntime ≡ 0)
unfolding sched_fork
fork_vruntime s t p e r = let z = Reach-min r in (omega (arith, z), ground (arith, z))
