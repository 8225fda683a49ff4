-- ===== src/Sched/Enqueue.antt =====
-- `sched_enqueue` of kernel/src/userspace/scheduler.c appends to one bucket of the run queue.
use dz_os.Prelude.{
  ℕ, ◌+◌, ◌<◌, ◌≡◌, refl, ap, ◌∙◌, ◌≢◌, inl, inr, true, false, List, [], ◌∷◌, ◌++◌, arith, ◌==◌,
  u32, Bool-cases, update, length-append, has, has-append,
}
use dz_os.Sched.State.{Sched, Entity, sched_priority_levels}
use dz_os.Sched.Queue.{sched_enqueue}
use dz_os.Sched.Links.{Linked, SameLinks, Linked-frame, last-has, null-has, Appended, Linked-append}
use dz_os.Sched.Buckets.{
  bucket, IsMarked, IsBucket, IsQueues, IsAbsent, count-update, tail-has, other_bucket,
  enqueue_other, enqueue_self, enqueue_tail, enqueue_heads, enqueue_tails, enqueue_sizes,
}

bucket-lt : (s : Sched) (p : ℕ) → bucket s p < sched_priority_levels
bucket-lt s p = ground arith

module _ (s : Sched) (p : ℕ) (q : ℕ → List ℕ) (v : IsQueues s q) (nn : p ≢ 0)
    (out : IsAbsent q p) where
  apart : s.rq.queue_tails (bucket s p) ≢ p
  apart = ground (
    arith,
    out (bucket s p) (bucket-lt s p),
    tail-has s (bucket s p) (q (bucket s p)) (v.buckets (bucket s p) (bucket-lt s p)),
  )

  -- the state after, and the bucket with its last process before
  abbrev after : Sched
  after = sched_enqueue s p

  abbrev k : ℕ
  k = bucket s p

  abbrev last : ℕ
  last = s.rq.queue_tails (bucket s p)

  abbrev own : IsBucket s k (q k)
  own = v.buckets (bucket s p) (bucket-lt s p)

  enqueue-Appended : last ≢ 0 → Appended s.ent after.ent last p
  enqueue-Appended ne = record {
    next_new = ap (λ (e : Entity). e.next) (enqueue_self s p apart);
    prev_new = ap (λ (e : Entity). e.prev) (enqueue_self s p apart);
    next_last = ap (λ (e : Entity). e.next) (enqueue_tail s p apart ne);
    next_same = λ a np nt. ap (λ (e : Entity). e.next) (enqueue_other s p apart a np (λ _. nt));
    prev_same = λ a np. ground (arith, enqueue_other s p apart a np, enqueue_tail s p apart ne);
  }

  -- the processes of all buckets keep their marks, and all but the last of this one their links
  enqueue-IsMarked : (prio a : ℕ) → a ≢ p → IsMarked prio (s.ent a) → IsMarked prio (after.ent a)
  enqueue-IsMarked prio a np mk =
      ground (arith, enqueue_other s p apart a np, enqueue_tail s p apart)

  enqueue-linked :
      (xs : List ℕ)
      → IsBucket s k xs
      → has p xs ≡ false
      → Linked after.ent (after.rq.queue_heads k) (after.rq.queue_tails k) 0 (xs ++ (p ∷ []))
  enqueue-linked [] b o =
      let t : last ≡ 0 = b.linked.1 in
      let h : after.rq.queue_heads k ≡ p = ground (arith, enqueue_heads s p k) in
      let e : after.rq.queue_tails k ≡ p = ground (arith, enqueue_tails s p k) in
      let self = enqueue_self s p apart in
      let prev : (after.ent p).prev ≡ 0 = ap (λ (x : Entity). x.prev) self ∙ t in
      let next : (after.ent p).next ≡ 0 = ap (λ (x : Entity). x.next) self in
      (h, nn, prev, refl, (next, e))
  enqueue-linked (x ∷ xs) b o =
      let ne : last ≢ 0 = ground (
        arith,
        last-has s.ent (s.rq.queue_heads k) last 0 x xs b.linked,
        null-has s.ent (s.rq.queue_heads k) last 0 (x ∷ xs) b.linked,
      ) in
      let h : after.rq.queue_heads k ≡ s.rq.queue_heads k = ground (arith, enqueue_heads s p k) in
      let e : after.rq.queue_tails k ≡ p = ground (arith, enqueue_tails s p k) in
      rw (h, e)
        (Linked-append s.ent after.ent (s.rq.queue_heads k) last 0 p x xs b.linked nn o
          (enqueue-Appended ne))

  enqueue-own : IsBucket after k (q k ++ (p ∷ []))
  enqueue-own = record {
    linked = enqueue-linked (q k) own (out k (bucket-lt s p));
    marked = λ a i. ground (
      arith,
      has-append a (q k) (p ∷ []),
      enqueue-IsMarked k a,
      own.marked a,
      enqueue_self s p apart,
    );
    size = ground (arith, enqueue_sizes s p k, own.size, length-append (q k) (p ∷ []));
  }

  enqueue-others :
      (prio : ℕ) → prio < sched_priority_levels → prio ≢ k → IsBucket after prio (q prio)
  enqueue-others prio h different = record {
    linked = rw (heads, tails) (Linked-frame s.ent after.ent _ _ 0 (q prio) old.linked same);
    marked = λ a i. enqueue-IsMarked prio a (ground (arith, out prio h)) (old.marked a i);
    size = ground (arith, enqueue_sizes s p prio, old.size);
  }
    where
      old : IsBucket s prio (q prio)
      old = v.buckets prio h

      heads : after.rq.queue_heads prio ≡ s.rq.queue_heads prio
      heads = ground (arith, enqueue_heads s p prio)

      tails : after.rq.queue_tails prio ≡ s.rq.queue_tails prio
      tails = ground (arith, enqueue_tails s p prio)

      new : (a : ℕ) → has a (q prio) ≡ true → a ≢ p
      new a i = ground (arith, out prio h)

      kept : (a : ℕ) → has a (q prio) ≡ true → after.ent a ≡ s.ent a
      kept a i = enqueue_other s p apart a (new a i) (λ ne.
          other_bucket s prio k a last (q prio) (q k) old own different i
            (tail-has s k (q k) own ne))

      same : (a : ℕ) → has a (q prio) ≡ true → SameLinks (s.ent a) (after.ent a)
      same a i = record {
        next = ap (λ (e : Entity). e.next) (kept a i);
        prev = ap (λ (e : Entity). e.prev) (kept a i);
      }

  enqueue-total : after.rq.total_runnable ≡ u32 (s.rq.total_runnable + 1)
  unfolding sched_enqueue
  enqueue-total = refl

  -- Enqueueing a process that no bucket holds appends it to the bucket of its dynamic priority (of
  -- priority 7 if that is larger), leaves the other buckets as they are, and counts it.
  pub enqueue-IsQueues : IsQueues after (update q k (q k ++ (p ∷ [])))
  enqueue-IsQueues = record {
    buckets = λ prio h. elim (Bool-cases (prio == k)) [
      | inl e ↦ let e' : prio ≡ k = ground arith in rw e (rw e' enqueue-own)
      | inr ne ↦ rw ne (enqueue-others prio h (ground arith))
    ];
    total = ground (
      arith,
      enqueue-total,
      v.total,
      length-append (q k) (p ∷ []),
      count-update 8 k q (q k ++ (p ∷ [])) (bucket-lt s p),
    );
  }
