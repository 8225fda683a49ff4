-- ===== src/Vmm/Mapped.antt =====
-- The loops of kernel/src/mem/vmm.c that map pages, as changes of the translation.
use dz_os.Prelude.{
  ℕ, zero, suc, ◌+◌, ◌*◌, ◌^◌, ◌≤◌, ◌<◌, ◌≡◌, refl, sym, ap, subst, ◌∙◌, ◌≢◌, Bool, true, false,
  not, ◌&&◌, ◌||◌, Option, none, some, arith, ltb, leb, u64, ◌>>=◌,
}
use dz_os.Mem.State.{page_size}
use dz_os.Vmm.Table.{
  pte_is_present, pte_index, userspace_va_max, userspace_va_min, kernel_va_min, PtePermissions,
  frame_pte, FrameAllocator, Vm,
}
use dz_os.Vmm.Walk.{walk, walk_kernel, user_table, kernel_table}
use dz_os.Vmm.Map.{map_each, map_page, map_kernel_page}
use dz_os.Vmm.Entries.{IsFrameAllocator, pte_addr-bound}
use dz_os.Vmm.Walked.{Exhausted}
use dz_os.Vmm.Look.{page_base}
use dz_os.Vmm.Placed.{translation, Good, OnePlaced, One, place-One}

-- page `k` of a range
abbrev pub nth_page : ℕ → ℕ → ℕ
nth_page va k = u64 (va + k * page_size)

nth_page_next : (va k : ℕ) → nth_page (u64 (va + page_size)) k ≡ nth_page va (suc k)
nth_page_next va k = omega arith

module _ {P : Type 0} (fa : FrameAllocator P) (h root : ℕ) (Top : ℕ → Type 0)
    (Ok : (ℕ → ℕ) → P → Type 0) (Free : P → ℕ → Type 0) (laws : IsFrameAllocator fa h Ok Free) where
  abbrev look : Vm P → ℕ → ℕ
  look v va = translation fa h root Top Ok Free laws v va

  -- What the loop over `n` pages from `va` and `pa` leaves, `Q` saying which entry a page gets: on success
  -- all pages of the range, which were not mapped, are; pages outside keep their translation; it fails only
  -- when the allocator has returned NULL on the way.
  pub record Mapped (Q : ℕ → ℕ → Type 0) (n va pa : ℕ) (v : Vm P) (b : Bool) (v' : Vm P)
      : Type 0 where
    pub good : Good fa h root Top Ok Free laws v'
    pub others :
        (vb : ℕ)
        → Top (pte_index vb 3)
        → ((k : ℕ) → k < n → page_base vb ≢ page_base (nth_page va k))
        → look v' vb ≡ look v vb
    pub here :
        b ≡ true
        → (k : ℕ) → k < n
        → Q (nth_page pa k) (look v' (nth_page va k))
          × (pte_is_present (look v (nth_page va k)) ≡ false)
    pub failed : b ≡ false → Exhausted fa h root Top Ok Free laws v'

  -- a panic is a page of the range that was mapped
  abbrev pub Maps : (ℕ → ℕ → Type 0) → ℕ → ℕ → ℕ → Vm P → Option (Bool × Vm P) → Type 0
  Maps Q n va pa v none = (k : ℕ) × (k < n) × (pte_is_present (look v (nth_page va k)) ≡ true)
  Maps Q n va pa v (some (b, v')) = Mapped Q n va pa v b v'

  -- the range: its pages are different, and those of `Top`
  pub record Range (n va : ℕ) : Type 0 where
    pub inside : (k : ℕ) → k < n → Top (pte_index (nth_page va k) 3)
    pub apart :
        (j k : ℕ) → j < n → k < n → j ≢ k → page_base (nth_page va j) ≢ page_base (nth_page va k)

  Range-rest : (n va : ℕ) → Range (suc n) va → Range n (u64 (va + page_size))
  Range-rest n va r = record {
    inside = λ k low.
        subst (λ x. Top (pte_index x 3)) (sym (nth_page_next va k))
          (r.inside (suc k) (omega arith));
    apart = λ j k lj lk ne.
        rw (nth_page_next va j, nth_page_next va k)
          (r.apart (suc j) (suc k) (omega arith) (omega arith) (λ e. ne (omega (arith, e))));
  }

  -- the first page mapped in front of the loop over the rest
  module _ (Q : ℕ → ℕ → Type 0) (n va pa : ℕ) (v u : Vm P) (wa : va < 2 ^ 64) (wp : pa < 2 ^ 64)
      (first : OnePlaced fa h root Top Ok Free laws (Q pa) va v true u)
      (range : Range (suc n) va) where
    page_0 : nth_page va 0 ≡ va
    page_0 = omega arith

    other_page : (k : ℕ) → k < n → page_base (nth_page va (suc k)) ≢ page_base va
    other_page k low =
        let ne = range.apart (suc k) 0 (omega arith) (omega arith) (λ e. omega (arith, e)) in
        subst (λ x. page_base (nth_page va (suc k)) ≢ page_base x) page_0 ne

    -- what the first round left of a later page
    later : (k : ℕ) → k < n → look u (nth_page va (suc k)) ≡ look v (nth_page va (suc k))
    later k low =
        first.others (nth_page va (suc k)) (range.inside (suc k) (omega arith)) (other_page k low)

    combine_here :
        (w : Vm P)
        → Mapped Q n (u64 (va + page_size)) (u64 (pa + page_size)) u true w
        → (k : ℕ) → k < suc n
        → Q (nth_page pa k) (look w (nth_page va k))
          × (pte_is_present (look v (nth_page va k)) ≡ false)
    combine_here w m zero low =
        let here = first.here refl in
        let kept =
          m.others va (subst (λ x. Top (pte_index x 3)) page_0 (range.inside 0 (omega arith)))
            (λ k lk e. other_page k lk (sym (e ∙ ap page_base (nth_page_next va k)))) in
        let page_p : nth_page pa 0 ≡ pa = omega arith in
        rw (page_0, page_p) (subst (Q pa) (sym kept) here.0, here.1)
    combine_here w m (suc k) low =
        let r = m.here refl k (omega arith) in
        let at = nth_page_next va k in
        let moved =
          subst (λ x. Q (nth_page pa (suc k)) (look w x)) at
            (subst (λ y. Q y (look w (nth_page (u64 (va + page_size)) k))) (nth_page_next pa k)
              r.0) in
        let absent = subst (λ x. pte_is_present (look u x) ≡ false) at r.1 in
        (moved, subst (λ x. pte_is_present x ≡ false) (later k (omega arith)) absent)

    combine :
        (r : Option (Bool × Vm P))
        → Maps Q n (u64 (va + page_size)) (u64 (pa + page_size)) u r
        → Maps Q (suc n) va pa v r
    combine none (k, low, present) =
        let moved = subst (λ x. pte_is_present (look u x) ≡ true) (nth_page_next va k) present in
        (suc k, omega arith, subst (λ x. pte_is_present x ≡ true) (later k low) moved)
    combine (some (b, w)) m = record {
      good = m.good;
      others = λ vb top out.
          m.others vb top (λ k low.
            subst (λ x. page_base vb ≢ page_base x) (sym (nth_page_next va k))
              (out (suc k) (omega arith)))
          ∙ first.others vb top
              (subst (λ x. page_base vb ≢ page_base x) page_0 (out 0 (omega arith)));
      here = λ done.
          combine_here w
            (subst (λ c. Mapped Q n (u64 (va + page_size)) (u64 (pa + page_size)) u c w) done m);
      failed = m.failed;
    }

  page_zero : (va : ℕ) → va < 2 ^ 64 → nth_page va 0 ≡ va
  page_zero va w = omega arith

  -- a round of the loop, given what the rounds after it do
  map_step :
      (place : ℕ → ℕ → Vm P → Option (Bool × Vm P)) (Q : ℕ → ℕ → Type 0) (n va pa : ℕ) (v : Vm P)
      → va < 2 ^ 64
      → pa < 2 ^ 64
      → Range (suc n) va
      → (r : Option (Bool × Vm P)) → One fa h root Top Ok Free laws (Q pa) va v r
      → ((u : Vm P)
          → Good fa h root Top Ok Free laws u
          → Maps Q n
              (u64 (va + page_size))
              (u64 (pa + page_size))
              u
              (map_each place n (u64 (va + page_size)) (u64 (pa + page_size)) u))
      → Maps Q (suc n) va pa v (
          r >>= λ x. elim x.0 [
            | true ↦ map_each place n (u64 (va + page_size)) (u64 (pa + page_size)) x.1
            | false ↦ some x
          ])
  map_step place Q n va pa v wa wp range none present rest = (
    0,
    omega arith,
    subst (λ x. pte_is_present (look v x) ≡ true) (sym (page_zero va wa)) present,
  )
  map_step place Q n va pa v wa wp range (some (false, u)) first rest = record {
    good = first.good;
    others = λ vb top out.
        first.others vb top
          (subst (λ x. page_base vb ≢ page_base x) (page_zero va wa) (out 0 (omega arith)));
    here = λ f. cc;
    failed = first.failed;
  }
  map_step place Q n va pa v wa wp range (some (true, u)) first rest =
      combine Q n va pa v u wa wp first range
        (map_each place n (u64 (va + page_size)) (u64 (pa + page_size)) u) (rest u first.good)

  pub map_each-Maps :
      (place : ℕ → ℕ → Vm P → Option (Bool × Vm P)) (Q : ℕ → ℕ → Type 0) (n va pa : ℕ) (v : Vm P)
      → va < 2 ^ 64
      → pa < 2 ^ 64
      → (Fits : ℕ → Type 0) → ((k : ℕ) → k < n → Fits (nth_page va k))
      → ((x pb : ℕ) (u : Vm P)
          → Good fa h root Top Ok Free laws u
          → Top (pte_index x 3)
          → Fits x
          → pb < 2 ^ 64
          → One fa h root Top Ok Free laws (Q pb) x u (place x pb u))
      → Good fa h root Top Ok Free laws v
      → Range n va
      → Maps Q n va pa v (map_each place n va pa v)
  unfolding map_each
  map_each-Maps place Q zero va pa v wa wp Fits ok one good range = record {
    good = good;
    others = λ vb top out. refl;
    here = λ _ k low. absurd (omega arith);
    failed = λ f. cc;
  }
  map_each-Maps place Q (suc n) va pa v wa wp Fits ok one good range =
      map_step place Q n va pa v wa wp range (place va pa v)
        (one va pa v good
          (subst (λ x. Top (pte_index x 3)) (page_zero va wa) (range.inside 0 (omega arith)))
          (subst Fits (page_zero va wa) (ok 0 (omega arith))) wp)
        (λ u g.
          map_each-Maps place Q n (u64 (va + page_size)) (u64 (pa + page_size)) u (omega arith)
            (omega arith) Fits
            (λ k low. subst Fits (sym (nth_page_next va k)) (ok (suc k) (omega arith))) one g
            (Range-rest n va range))

  abbrev pub Exactly : (ℕ → ℕ) → ℕ → ℕ → Type 0
  Exactly pte pa e = e ≡ pte pa

  pub frame_pte-bound : (pa : ℕ) (perm : PtePermissions) → frame_pte pa perm < 2 ^ 64
  unfolding frame_pte
  frame_pte-bound pa perm = ground (arith, pte_addr-bound pa)

  pub map_page-One :
      (perm : PtePermissions) (va pa : ℕ) (v : Vm P)
      → Good fa h root Top Ok Free laws v
      → Top (pte_index va 3)
      → userspace_va_min ≤ va
      → va < userspace_va_max
      → One fa h root Top Ok Free laws
          (Exactly (λ x. frame_pte x perm) pa)
          va
          v
          (map_page fa root perm va pa v)
  unfolding map_page walk
  map_page-One perm va pa v good top low high =
      let ok : ((not false && leb userspace_va_max va) || ltb va userspace_va_min) ≡ false =
        ground arith in
      rw ok (
        place-One fa h root Top Ok Free laws (Exactly (λ x. frame_pte x perm) pa) user_table va
          (frame_pte pa perm) v (omega arith) (omega arith) good top (frame_pte-bound pa perm) refl)

  pub map_kernel_page-One :
      (perm : PtePermissions) (va pa : ℕ) (v : Vm P)
      → Good fa h root Top Ok Free laws v
      → Top (pte_index va 3)
      → kernel_va_min ≤ va
      → One fa h root Top Ok Free laws
          (Exactly (λ x. frame_pte x (record perm { userspace = false })) pa)
          va
          v
          (map_kernel_page fa root perm va pa v)
  unfolding map_kernel_page walk_kernel
  map_kernel_page-One perm va pa v good top low =
      let kernel = record perm { userspace = false } in
      let ok : ltb va kernel_va_min ≡ false = ground arith in
      rw ok (
        place-One fa h root Top Ok Free laws (Exactly (λ x. frame_pte x kernel) pa) kernel_table va
          (frame_pte pa kernel) v (omega arith) (omega arith) good top (frame_pte-bound pa kernel)
          refl)
