-- ===== src/Sched/Pick.antt =====
-- `sched_pick_next` of kernel/src/userspace/scheduler.c on the abstract run queue.
use dz_os.Prelude.{
  ℕ, zero, suc, ◌+◌, ◌≤◌, ◌<◌, ◌≡◌, refl, ◌⊎◌, inl, inr, true, some, List, [], ◌∷◌, arith, ltb, leb,
  if◌then◌else◌, Bool-cases, ==-ne, length, has,
}
use dz_os.Sched.State.{Sched, Entity, sched_priority_levels, prio_rt_max}
use dz_os.Sched.Queue.{pick_best, pick_from, sched_pick_next}
use dz_os.Sched.Links.{Linked}
use dz_os.Sched.Buckets.{IsBucket, IsQueues}

-- `b` is `best` or in `xs`, and nothing there has run for less virtual time.
pub record IsLeast (ent : ℕ → Entity) (best : ℕ) (xs : List ℕ) (b : ℕ) : Type 0 where
  pub among : has b (best ∷ xs) ≡ true
  pub least : (a : ℕ) → has a (best ∷ xs) ≡ true → (ent b).vruntime ≤ (ent a).vruntime

IsLeast-skip :
    (ent : ℕ → Entity) (best x b : ℕ) (xs : List ℕ)
    → (ent best).vruntime ≤ (ent x).vruntime
    → IsLeast ent best xs b
    → IsLeast ent best (x ∷ xs) b
IsLeast-skip ent best x b xs le l = record {
  among = ground (arith, l.among);
  least = λ a i. ground (arith, l.least a, l.least best);
}

IsLeast-take :
    (ent : ℕ → Entity) (best x b : ℕ) (xs : List ℕ)
    → (ent x).vruntime < (ent best).vruntime
    → IsLeast ent x xs b
    → IsLeast ent best (x ∷ xs) b
IsLeast-take ent best x b xs lt l = record {
  among = ground (arith, l.among);
  least = λ a i. ground (arith, l.least a, l.least x);
}

-- The walk ends, and finds the least.
pick_best-IsLeast :
    (fuel : ℕ) (ent : ℕ → Entity) (best se t pv : ℕ) (xs : List ℕ)
    → Linked ent se t pv xs
    → length xs < fuel
    → (b : ℕ) × (pick_best fuel ent best (ent best).vruntime se ≡ some b) × IsLeast ent best xs b
unfolding pick_best
pick_best-IsLeast zero ent best se t pv xs l lt = absurd (omega arith)
pick_best-IsLeast (suc f) ent best se t pv [] l lt =
    (best, ground arith, record { among = ground arith; least = λ a i. ground arith })
pick_best-IsLeast (suc f) ent best se t pv (x ∷ xs) l lt =
    elim (Bool-cases (ltb (ent x).vruntime (ent best).vruntime)) [
      | inl less ↦
          let (b, e, least) = pick_best-IsLeast f ent x (ent x).next t x xs l.4 (omega arith) in
          (b, ground (arith, e), IsLeast-take ent best x b xs (ground arith) least)
      | inr more ↦
          let (b, e, least) = pick_best-IsLeast f ent best (ent x).next t x xs l.4 (omega arith) in
          (b, ground (arith, e), IsLeast-skip ent best x b xs (ground arith) least)
    ]

-- The process `p` is the choice from a bucket: the first in a real-time bucket, the least virtual run
-- time in the others.
abbrev pub IsChoice : (ℕ → Entity) → ℕ → List ℕ → ℕ → Type 0
IsChoice ent k [] p = ⊥
IsChoice ent k (x ∷ xs) p = (k ≤ prio_rt_max → p ≡ x) × (prio_rt_max < k → IsLeast ent x xs p)

-- What is picked from the buckets `n` at `prio` on: 0 if they are empty, else a choice from the first
-- that is not.
abbrev pub Picks : (ℕ → Entity) → (ℕ → List ℕ) → ℕ → ℕ → ℕ → Type 0
Picks ent q zero prio p = p ≡ 0
Picks ent q (suc n) prio p =
    ((q prio ≡ []) × Picks ent q n (prio + 1) p) ⊎ IsChoice ent prio (q prio) p

pick_bucket :
    (fuel : ℕ) (s : Sched) (prio : ℕ) (x : ℕ) (xs : List ℕ)
    → IsBucket s prio (x ∷ xs)
    → length (x ∷ xs) < fuel
    → (p : ℕ) × ((if leb prio prio_rt_max
          then some x
          else pick_best fuel s.ent x (s.ent x).vruntime (s.ent x).next)
        ≡ some p)
      × IsChoice s.ent prio (x ∷ xs) p
pick_bucket fuel s prio x xs b lt = elim (Bool-cases (leb prio prio_rt_max)) [
  | inl rt ↦ (x, rw rt, (λ h. refl, λ h. absurd (ground arith)))
  | inr normal ↦
      let (p, e, least) =
        pick_best-IsLeast fuel s.ent x (s.ent x).next (s.rq.queue_tails prio) x xs b.linked.4
          (omega arith) in
      (p, rw normal e, (λ h. absurd (ground arith), λ h. least))
]

pick_from-Picks :
    (fuel n prio : ℕ) (s : Sched) (q : ℕ → List ℕ) (qs : List ℕ)
    → q prio ≡ qs
    → IsQueues s q
    → ((i : ℕ) → i < sched_priority_levels → length (q i) < fuel)
    → prio + n ≡ sched_priority_levels
    → (p : ℕ) × (pick_from fuel n prio s ≡ some p) × Picks s.ent q n prio p
unfolding pick_from
pick_from-Picks fuel zero prio s q qs e v small end = (0, refl, refl)
pick_from-Picks fuel (suc n) prio s q [] e v small end =
    let (p, eq, picks) =
      pick_from-Picks fuel n (prio + 1) s q (q (prio + 1)) refl v small (omega arith) in
    let b : IsBucket s prio [] = rw e at (v.buckets prio (omega arith)) in
    (p, rw (b.linked.0) eq, inl (e, picks))
pick_from-Picks fuel (suc n) prio s q (x ∷ xs) e v small end =
    let b : IsBucket s prio (x ∷ xs) = rw e at (v.buckets prio (omega arith)) in
    let lt : length (x ∷ xs) < fuel = rw e at (small prio (omega arith)) in
    let (p, eq, choice) = pick_bucket fuel s prio x xs b lt in
    (p, rw (b.linked.0, ==-ne x 0 b.linked.1) eq, inr (rw e choice))

-- On a well-formed run queue, with fuel for the longest bucket, the pick ends: it returns NULL if all
-- buckets are empty, and else a choice from the one of highest priority that is not.
pub pick_next-Picks :
    (fuel : ℕ) (s : Sched) (q : ℕ → List ℕ)
    → IsQueues s q
    → ((i : ℕ) → i < sched_priority_levels → length (q i) < fuel)
    → (p : ℕ) × (sched_pick_next fuel s ≡ some p) × Picks s.ent q sched_priority_levels 0 p
unfolding sched_pick_next
pick_next-Picks fuel s q v small =
    pick_from-Picks fuel sched_priority_levels 0 s q (q 0) refl v small refl
