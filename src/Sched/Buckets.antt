-- ===== src/Sched/Buckets.antt =====
-- The abstract run queue: a list of processes for each priority. What `sched_enqueue` of
-- kernel/src/userspace/scheduler.c does to it.
use dz_os.Prelude.{
  ℕ, zero, suc, ◌+◌, ◌-◌, ◌≤◌, ◌<◌, ◌≡◌, refl, sym, ap, ◌∙◌, ◌≢◌, inl, inr, true, false, ◌&&◌, List,
  [], ◌∷◌, arith, ltb, leb, ◌==◌, if◌then◌else◌, u32, Bool-cases, update, length, has,
}
use dz_os.Sched.State.{Sched, Entity, sched_priority_levels}
use dz_os.Sched.Queue.{sched_enqueue}
use dz_os.Sched.Links.{Linked, last-has}

-- the bucket that `sched_enqueue` chooses
abbrev pub bucket : Sched → ℕ → ℕ
bucket s p =
    let dyn = (s.ent p).dynamic_priority in
    if leb sched_priority_levels dyn then sched_priority_levels - 1 else dyn

pub record IsMarked (prio : ℕ) (e : Entity) : Type 0 where
  pub recorded : e.runqueue_prio ≡ prio
  pub flagged : e.in_runqueue ≡ true

-- The bucket `prio` holds the processes `xs` in order.
pub record IsBucket (s : Sched) (prio : ℕ) (xs : List ℕ) : Type 0 where
  pub linked : Linked s.ent (s.rq.queue_heads prio) (s.rq.queue_tails prio) 0 xs
  pub marked : (a : ℕ) → has a xs ≡ true → IsMarked prio (s.ent a)
  pub size : s.rq.queue_sizes prio ≡ u32 (length xs)

-- the number of processes in the first `n` buckets
unfoldable pub count : ℕ → (ℕ → List ℕ) → ℕ
count zero q = 0
count (suc n) q = count n q + length (q n)

-- The run queue holds `q prio` in each bucket.
pub record IsQueues (s : Sched) (q : ℕ → List ℕ) : Type 0 where
  pub buckets : (prio : ℕ) → prio < sched_priority_levels → IsBucket s prio (q prio)
  pub total : s.rq.total_runnable ≡ u32 (count sched_priority_levels q)

-- no bucket holds `p`
abbrev pub IsAbsent : (ℕ → List ℕ) → ℕ → Type 0
IsAbsent q p = (prio : ℕ) → prio < sched_priority_levels → has p (q prio) ≡ false

pub count-update_of_le :
    (n k : ℕ) (q : ℕ → List ℕ) (ys : List ℕ) → n ≤ k → count n (update q k ys) ≡ count n q
unfolding count
count-update_of_le zero k q ys h = refl
count-update_of_le (suc n) k q ys h = ground (arith, count-update_of_le n k q ys)

pub count-update :
    (n k : ℕ) (q : ℕ → List ℕ) (ys : List ℕ)
    → k < n
    → count n (update q k ys) + length (q k) ≡ count n q + length ys
unfolding count
count-update zero k q ys h = absurd (omega arith)
count-update (suc n) k q ys h = elim (Bool-cases (ltb k n)) [
  | inl lt ↦ ground (arith, count-update n k q ys)
  | inr last ↦ ground (arith, count-update_of_le n k q ys)
]

-- The last process of a bucket stands in it.
pub tail-has :
    (s : Sched) (prio : ℕ) (xs : List ℕ)
    → IsBucket s prio xs
    → s.rq.queue_tails prio ≢ 0
    → has (s.rq.queue_tails prio) xs ≡ true
tail-has s prio [] b ne = absurd (ne b.linked.1)
tail-has s prio (x ∷ xs) b ne = last-has s.ent _ _ 0 x xs b.linked

-- A process of one bucket is none of another.
pub other_bucket :
    (s : Sched) (i j a b : ℕ) (xs ys : List ℕ)
    → IsBucket s i xs
    → IsBucket s j ys
    → i ≢ j
    → has a xs ≡ true
    → has b ys ≡ true
    → a ≢ b
other_bucket s i j a b xs ys bx by ne ha hb e = ne (
    sym (bx.marked a ha).recorded ∙ ap (λ k. (s.ent k).runqueue_prio) e ∙ (by.marked b hb).recorded)

module _ (s : Sched) (p : ℕ) (absent : s.rq.queue_tails (bucket s p) ≢ p) where
  pub enqueue_other :
      (a : ℕ)
      → a ≢ p
      → (s.rq.queue_tails (bucket s p) ≢ 0 → a ≢ s.rq.queue_tails (bucket s p))
      → (sched_enqueue s p).ent a ≡ s.ent a
  unfolding sched_enqueue
  enqueue_other a ne nt = ground arith

  pub enqueue_self : (sched_enqueue s p).ent p ≡ record (s.ent p) {
    next = 0;
    prev = s.rq.queue_tails (bucket s p);
    runqueue_prio = bucket s p;
    in_runqueue = true;
  }
  unfolding sched_enqueue
  enqueue_self = ground arith

  pub enqueue_tail :
      s.rq.queue_tails (bucket s p) ≢ 0
      → (sched_enqueue s p).ent (s.rq.queue_tails (bucket s p))
        ≡ record (s.ent (s.rq.queue_tails (bucket s p))) { next = p }
  unfolding sched_enqueue
  enqueue_tail ne = ground arith

-- the run queue after an enqueue
module _ (s : Sched) (p i : ℕ) where
  pub enqueue_heads : (sched_enqueue s p).rq.queue_heads i ≡ (
      if (s.rq.queue_tails (bucket s p) == 0) && (i == bucket s p) then p else s.rq.queue_heads i)
  unfolding sched_enqueue
  enqueue_heads = ground arith

  pub enqueue_tails :
      (sched_enqueue s p).rq.queue_tails i ≡ (if i == bucket s p then p else s.rq.queue_tails i)
  unfolding sched_enqueue
  enqueue_tails = refl

  pub enqueue_sizes :
      (sched_enqueue s p).rq.queue_sizes i
      ≡ (if i == bucket s p then u32 (s.rq.queue_sizes i + 1) else s.rq.queue_sizes i)
  unfolding sched_enqueue
  enqueue_sizes = ground arith
