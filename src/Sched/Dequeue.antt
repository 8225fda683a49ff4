-- ===== src/Sched/Dequeue.antt =====
-- `sched_dequeue` of kernel/src/userspace/scheduler.c takes a process out of its bucket.
use dz_os.Prelude.{
  ℕ, ◌+◌, ◌-◌, ◌^◌, ◌<◌, ◌≡◌, refl, ap, subst, ◌∙◌, ◌≢◌, inl, inr, true, false, List, [], ◌∷◌,
  arith, leb, ◌==◌, if◌then◌else◌, u32, u64, Bool-cases, update, length, has,
}
use dz_os.Sched.State.{sched_entity_weight, Sched, Entity, sched_priority_levels}
use dz_os.Sched.Queue.{sched_dequeue, relink_prev, relink_next, clear_links}
use dz_os.Sched.Links.{
  Linked, SameLinks, Linked-frame, null-has, remove, Unlinked, Linked-remove, next-ne, prev-ne,
  next-has, prev-has, keep_links,
}
use dz_os.Sched.Buckets.{IsMarked, IsBucket, IsQueues, IsAbsent, count-update, other_bucket}

length-remove : (p : ℕ) (xs : List ℕ) → has p xs ≡ true → length (remove p xs) + 1 ≡ length xs
length-remove p [] i = cc
length-remove p (x ∷ xs) i = ground (arith, length-remove p xs)

has-remove_of : (a p : ℕ) (xs : List ℕ) → has a (remove p xs) ≡ true → has a xs ≡ true
has-remove_of a p [] i = i
has-remove_of a p (x ∷ xs) i = ground (arith, has-remove_of a p xs)

-- a bucket in which `p` stands once no longer holds it
remove_self :
    (ent : ℕ → Entity) (h t pv p : ℕ) (xs : List ℕ)
    → Linked ent h t pv xs
    → has p (remove p xs) ≡ false
remove_self ent h t pv p [] l = refl
remove_self ent h t pv p (x ∷ xs) l = ground (arith, remove_self ent (ent x).next t x p xs l.4)

-- The writes of a dequeue, for a process that is not its own neighbour.
module _ (ent : ℕ → Entity) (p : ℕ) (np : (ent p).prev ≢ p) (nn : (ent p).next ≢ p) where
  relink_self : relink_prev (ent p) ent p ≡ ent p
  unfolding relink_prev
  relink_self = ground arith

  relink_self' : relink_next (ent p) (relink_prev (ent p) ent) p ≡ ent p
  unfolding relink_next
  relink_self' = ground (arith, relink_self)

  unlinked : ℕ → Entity
  unlinked = clear_links p (relink_next (ent p) (relink_prev (ent p) ent))

  unlinked_other : (a : ℕ) → a ≢ p → unlinked a ≡ relink_next (ent p) (relink_prev (ent p) ent) a
  unfolding unlinked clear_links
  unlinked_other a ne = ground arith

  unlinked_self : unlinked p ≡ record (ent p) { next = 0; prev = 0; in_runqueue = false }
  unfolding unlinked clear_links
  unlinked_self = ground (arith, relink_self')

  unlinked_next :
      (a : ℕ)
      → a ≢ p
      → a ≢ 0
      → (unlinked a).next ≡ (if a == (ent p).prev then (ent p).next else (ent a).next)
  unfolding relink_next relink_prev
  unlinked_next a ne nz = ground (arith, unlinked_other a ne)

  unlinked_prev :
      (a : ℕ)
      → a ≢ p
      → a ≢ 0
      → (unlinked a).prev ≡ (if a == (ent p).next then (ent p).prev else (ent a).prev)
  unfolding relink_next relink_prev
  unlinked_prev a ne nz = ground (arith, unlinked_other a ne)

  unlinked-IsMarked : (prio a : ℕ) → a ≢ p → IsMarked prio (ent a) → IsMarked prio (unlinked a)
  unfolding relink_next relink_prev
  unlinked-IsMarked prio a ne mk = ground (arith, unlinked_other a ne)

module _ (s : Sched) (p : ℕ) (inside : (s.ent p).runqueue_prio < sched_priority_levels)
    (np : (s.ent p).prev ≢ p) (nn : (s.ent p).next ≢ p) where
  abbrev dequeued : Sched
  dequeued =
      let se = s.ent p in
      let prio = se.runqueue_prio in
      record s {
        ent = unlinked s.ent p np nn;
        rq = record s.rq {
          queue_heads =
              if se.prev == 0 then update s.rq.queue_heads prio se.next else s.rq.queue_heads;
          queue_tails =
              if se.next == 0 then update s.rq.queue_tails prio se.prev else s.rq.queue_tails;
          queue_sizes = update s.rq.queue_sizes prio (u32 (s.rq.queue_sizes prio + (2 ^ 32 - 1)));
          total_runnable = u32 (s.rq.total_runnable + (2 ^ 32 - 1));
          total_weight = u64 (s.rq.total_weight + 2 ^ 64 - sched_entity_weight se);
        };
      }

  dequeue_eq : sched_dequeue s p ≡ dequeued
  unfolding sched_dequeue unlinked
  dequeue_eq =
      let small : leb sched_priority_levels (s.ent p).runqueue_prio ≡ false = ground arith in
      rw (relink_self s.ent p np nn, relink_self' s.ent p np nn, small)

module _ (s : Sched) (q : ℕ → List ℕ) (v : IsQueues s q) (k p : ℕ) (h : k < sched_priority_levels)
    (i : has p (q k) ≡ true) where
  abbrev own : IsBucket s k (q k)
  own = v.buckets k h

  abbrev null : has 0 (q k) ≡ false
  null = null-has s.ent (s.rq.queue_heads k) (s.rq.queue_tails k) 0 (q k) own.linked

  not_prev : (s.ent p).prev ≢ p
  not_prev = prev-ne s.ent (s.rq.queue_heads k) (s.rq.queue_tails k) 0 p (q k) own.linked i null

  not_next : (s.ent p).next ≢ p
  not_next = next-ne s.ent (s.rq.queue_heads k) (s.rq.queue_tails k) 0 p (q k) own.linked i

  at : (s.ent p).runqueue_prio ≡ k
  at = (own.marked p i).recorded

  inside : (s.ent p).runqueue_prio < sched_priority_levels
  inside = rw at h

  abbrev after : Sched
  after = dequeued s p inside not_prev not_next

  writes : Unlinked s.ent after.ent p
  writes = record {
    next = unlinked_next s.ent p not_prev not_next;
    prev = unlinked_prev s.ent p not_prev not_next;
  }

  dequeue-own : IsBucket after k (remove p (q k))
  dequeue-own = record {
    linked =
        rw (heads, tails) (Linked-remove s.ent after.ent _ _ 0 p (q k) own.linked i null writes);
    marked = λ a j.
        unlinked-IsMarked s.ent p not_prev not_next k a
          (ground (arith, remove_self s.ent _ _ 0 p (q k) own.linked))
          (own.marked a (has-remove_of a p (q k) j));
    size = ground (arith, at, own.size, length-remove p (q k) i);
  }
    where
      heads :
          after.rq.queue_heads k
          ≡ (if (s.ent p).prev == 0 then (s.ent p).next else s.rq.queue_heads k)
      heads = ground (arith, at)

      tails :
          after.rq.queue_tails k
          ≡ (if (s.ent p).next == 0 then (s.ent p).prev else s.rq.queue_tails k)
      tails = ground (arith, at)

  dequeue-others :
      (prio : ℕ) → prio < sched_priority_levels → prio ≢ k → IsBucket after prio (q prio)
  dequeue-others prio hp different = record {
    linked = rw (heads, tails) (Linked-frame s.ent after.ent _ _ 0 (q prio) old.linked same);
    marked = λ a j.
        unlinked-IsMarked s.ent p not_prev not_next prio a
          (other_bucket s prio k a p (q prio) (q k) old own different j i) (old.marked a j);
    size = ground (arith, at, old.size);
  }
    where
      old : IsBucket s prio (q prio)
      old = v.buckets prio hp

      heads : after.rq.queue_heads prio ≡ s.rq.queue_heads prio
      heads = ground (arith, at)

      tails : after.rq.queue_tails prio ≡ s.rq.queue_tails prio
      tails = ground (arith, at)

      same : (a : ℕ) → has a (q prio) ≡ true → SameLinks (s.ent a) (after.ent a)
      same a j =
          keep_links s.ent after.ent p a writes
            (other_bucket s prio k a p (q prio) (q k) old own different j i) nz
            (apart (s.ent p).prev (λ out. prev-has s.ent _ _ 0 p (q k) own.linked i out))
            (apart (s.ent p).next (λ out. next-has s.ent _ _ 0 p (q k) own.linked i out))
        where
          nz : a ≢ 0
          nz = ground (
            arith,
            null-has s.ent (s.rq.queue_heads prio) (s.rq.queue_tails prio) 0 (q prio) old.linked,
          )

          apart : (b : ℕ) → (has b (q k) ≡ false → b ≡ 0) → a ≢ b
          apart b f = elim (Bool-cases (has b (q k))) [
            | inl in_k ↦ other_bucket s prio k a b (q prio) (q k) old own different j in_k
            | inr out ↦ λ e. nz (e ∙ f out)
          ]

  -- Dequeueing a process takes it out of its bucket, leaves the order of the rest of that bucket and
  -- the other buckets as they are, and counts it out.
  pub dequeue-IsQueues : IsQueues (sched_dequeue s p) (update q k (remove p (q k)))
  dequeue-IsQueues = rw (dequeue_eq s p inside not_prev not_next) (record {
    buckets = λ prio hp. elim (Bool-cases (prio == k)) [
      | inl e ↦ let e' : prio ≡ k = ground arith in rw e (rw e' dequeue-own)
      | inr ne ↦ rw ne (dequeue-others prio hp (ground arith))
    ];
    total = ground (arith, v.total, length-remove p (q k) i, count-update 8 k q (remove p (q k)) h);
  })

  -- After it no bucket holds the process.
  pub dequeue-IsAbsent : IsAbsent (update q k (remove p (q k))) p
  dequeue-IsAbsent prio hp = elim (Bool-cases (prio == k)) [
    | inl e ↦
        rw e (remove_self s.ent (s.rq.queue_heads k) (s.rq.queue_tails k) 0 p (q k) own.linked)
    | inr ne ↦ rw ne (elim (Bool-cases (has p (q prio))) [
      | inl twice ↦ absurd (
          other_bucket s prio k p p (q prio) (q k) (v.buckets prio hp) own (ground arith) twice i
            refl)
      | inr out ↦ out
    ])
  ]

  pub dequeue_dynamic : ((sched_dequeue s p).ent p).dynamic_priority ≡ (s.ent p).dynamic_priority
  dequeue_dynamic =
      rw (dequeue_eq s p inside not_prev not_next)
        (ap (λ (e : Entity). e.dynamic_priority) (unlinked_self s.ent p not_prev not_next))

  pub ne_null : p ≢ 0
  ne_null e = cc (subst (λ a. has a (q k) ≡ true) e i, null)

  pub dequeue_self :
      (sched_dequeue s p).ent p ≡ record (s.ent p) { next = 0; prev = 0; in_runqueue = false }
  dequeue_self =
      rw (dequeue_eq s p inside not_prev not_next) (unlinked_self s.ent p not_prev not_next)

  pub dequeue_weight :
      (sched_dequeue s p).rq.total_weight
      ≡ u64 (s.rq.total_weight + 2 ^ 64 - sched_entity_weight (s.ent p))
  dequeue_weight = rw (dequeue_eq s p inside not_prev not_next)
