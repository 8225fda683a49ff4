-- ===== src/Proc/Allocate.antt =====
-- Where proc_allocate of kernel/src/userspace/proc.c puts a process, and what it leaves of the table.
use dz_os.Prelude.{==-eq}
use dz_os.Prelude.{
  ℕ, zero, suc, ◌+◌, ◌-◌, ◌≤◌, ◌<◌, ◌≡◌, refl, sym, ap, subst, ◌∙◌, ◌≢◌, ◌⊎◌, inl, inr, true, false,
  Option, none, some, arith, leb, ◌==◌, if◌then◌else◌, u64, Bool-cases, ==-refl, ◌>>=◌, update,
}
use dz_os.Vmm.Table.{FrameAllocator, Vm, allocated}
use dz_os.Vmm.Space.{vmm_user_pagetable_new}
use dz_os.Proc.Table.{
  max_processes, Table, fresh_proc, empty_slot, after_allocate, is_valid_process_init, init_range,
  proc_allocate,
}

-- every slot from `i` on and below `k` is taken
abbrev pub TakenFrom : ℕ → ℕ → (ℕ → ℕ) → Type 0
TakenFrom i k f = (j : ℕ) → i ≤ j → j < k → f j ≢ 0

-- the first empty slot found, if any
abbrev pub Finds : (ℕ → ℕ) → ℕ → ℕ → Option ℕ → Type 0
Finds f i n none = TakenFrom i (i + n) f
Finds f i n (some m) = (i ≤ m) × (m < i + n) × (f m ≡ 0) × TakenFrom i m f

leb_le : (i j : ℕ) → leb i j ≡ true → i ≤ j
leb_le i j e = ground arith

leb_lt : (i j : ℕ) → leb i j ≡ false → j < i
leb_lt i j e = ground arith

before : (i j : ℕ) → j < suc i → (j == i) ≡ false → j < i
before i j high other = ground arith

after_it : (i j : ℕ) → i ≤ j → (j == i) ≡ false → suc i ≤ j
after_it i j low other = ground arith

empty_slot-Finds : (f : ℕ → ℕ) (i n : ℕ) → Finds f i n (empty_slot f i n)
unfolding empty_slot
empty_slot-Finds f i zero = λ j low high. absurd (omega arith)
empty_slot-Finds f i (suc n) = elim (Bool-cases (f i == 0)) [
  | inl empty ↦
      rw empty (omega arith, omega arith, ==-eq (f i) 0 empty, λ j low high. absurd (omega arith))
  | inr full ↦ rw full (later full (empty_slot f (suc i) n) (empty_slot-Finds f (suc i) n))
]
  where
    first : (f i == 0) ≡ false → f i ≢ 0
    first full e = cc (full, e, ==-refl 0)

    later : (f i == 0) ≡ false → (r : Option ℕ) → Finds f (suc i) n r → Finds f i (suc n) r
    later full none taken = λ j low high. elim (Bool-cases (j == i)) [
      | inl here ↦ subst (λ x. f x ≢ 0) (sym (==-eq j i here)) (first full)
      | inr other ↦ taken j (after_it i j low other) (omega arith)
    ]
    later full (some m) found = (
      omega (arith, found.0),
      omega (arith, found.1),
      found.2,
      λ j low high. elim (Bool-cases (j == i)) [
        | inl here ↦ subst (λ x. f x ≢ 0) (sym (==-eq j i here)) (first full)
        | inr other ↦ found.3 j (after_it i j low other) high
      ],
    )

module _ {P : Type 0} (fa : FrameAllocator P) where
  -- Of an allocation that returns: the slots below the new least index are taken. Either all slots were, and
  -- nothing changes in them, or the process stands in the first slot that was empty, alone changed.
  abbrev pub Allocates : Table P → Option (ℕ × Table P) → Type 0
  Allocates t none = Unit
  Allocates t (some (p, t')) =
      TakenFrom 0 t'.process_min_index t'.processes
      × (((p ≡ 0) × (t'.processes ≡ t.processes) × TakenFrom 0 max_processes t.processes)
          ⊎ ((i : ℕ) × (i < max_processes)
              × (t.processes i ≡ 0)
              × TakenFrom 0 i t.processes
              × (p ≢ 0)
              × (t'.processes ≡ update t.processes i p)))

  -- the end of an allocation at slot `i`
  after_allocate-Allocates :
      (p i : ℕ) (t s : Table P)
      → i < max_processes
      → t.processes i ≡ 0
      → TakenFrom 0 i t.processes
      → p ≢ 0
      → s.processes ≡ update t.processes i p
      → Allocates t (after_allocate p i s)
  unfolding after_allocate
  after_allocate-Allocates p i t s low empty below some_p placed =
      go (empty_slot s.processes (suc i) (max_processes - suc i))
        (empty_slot-Finds s.processes (suc i) (max_processes - suc i))
    where
      placed_at : (j : ℕ) → s.processes j ≡ (if j == i then p else t.processes j)
      placed_at j = ap (λ f. f j) placed

      taken : (m : ℕ) → TakenFrom (suc i) m s.processes → TakenFrom 0 m s.processes
      taken m above j _ high = elim (Bool-cases (j == i)) [
        | inl here ↦ λ z. some_p (sym (placed_at j ∙ rw here refl) ∙ z)
        | inr other ↦ elim (Bool-cases (leb i j)) [
          | inl up ↦ above j (after_it i j (leb_le i j up) other) high
          | inr down ↦
              λ z. below j (omega arith) (leb_lt i j down) (sym (placed_at j ∙ rw other refl) ∙ z)
        ]
      ]

      go :
          (r : Option ℕ)
          → Finds s.processes (suc i) (max_processes - suc i) r
          → Allocates t (
              r >>= λ min. some (
                p,
                record s {
                  process_count =
                      if i == s.process_count then u64 (s.process_count + 1) else s.process_count;
                  process_min_index = min;
                },
              ))
      go none _ = tt
      go (some m) found = (taken m found.3, inr (i, low, empty, below, some_p, placed))

  -- A slot tried, `next` being what the source does when it is taken.
  one_slot :
      (i : ℕ) (t : Table P) (next : Table P → Option (ℕ × Table P))
      → i < max_processes
      → TakenFrom 0 i t.processes
      → (t.processes i ≢ 0 → Allocates t (next t))
      → Allocates t (
          is_valid_process_init fa i t >>= λ r. elim (r.0 == 0) [
            | true ↦ next r.1
            | false ↦ after_allocate r.0 i r.1
          ])
  unfolding is_valid_process_init
  one_slot i t next low below more = elim (Bool-cases (t.processes i == 0)) [
    | inr full ↦ rw full (more (λ e. cc (full, e, ==-refl 0)))
    | inl empty ↦ elim (Bool-cases (r.0 == 0)) [
      | inl null ↦ rw (empty, null) tt
      | inr page ↦
          rw (empty, page) (go page (==-eq (t.processes i) 0 empty) (vmm_user_pagetable_new fa r.1))
    ]
  ]
    where
      r : ℕ × Vm P
      r = allocated (fa.kalloc (t.vm).memory (t.vm).pages) t.vm

      pass :
          (q : ℕ) (s : Table P)
          → (q == 0) ≡ false
          → Allocates t (after_allocate q i s)
          → Allocates t (elim (q == 0) [ true ↦ next s | false ↦ after_allocate q i s ])
      pass q s page done = rw page done

      set_up : ℕ × Vm P → Option (ℕ × Table P)
      set_up u =
          if u.0 == 0
          then none
          else some (
            r.0,
            record t {
              vm = u.1;
              next_pid = u64 (t.next_pid + 1);
              processes = update t.processes i r.0;
              proc = update t.proc r.0 (fresh_proc t.next_pid i u.0);
            },
          )

      go :
          (r.0 == 0) ≡ false
          → t.processes i ≡ 0
          → (made : Option (ℕ × Vm P))
          → Allocates t (
              (made >>= set_up) >>= λ r. elim (r.0 == 0) [
                | true ↦ next r.1
                | false ↦ after_allocate r.0 i r.1
              ])
      go page empty none = tt
      go page empty (some (table, v)) = elim (Bool-cases (table == 0)) [
        | inl null ↦ rw null tt
        | inr made ↦ rw made (
            pass r.0 _ page (
              after_allocate-Allocates r.0 i t _ low empty below (λ e. cc (page, e, ==-refl 0))
                refl))
      ]

  init_range-Allocates :
      (i n : ℕ) (t : Table P)
      → max_processes ≤ i + n
      → (0 < n → i + n ≤ max_processes)
      → TakenFrom 0 i t.processes
      → TakenFrom 0 t.process_min_index t.processes
      → Allocates t (init_range fa i n t)
  unfolding init_range
  init_range-Allocates i zero t all inside below kept =
      (kept, inl (refl, refl, λ j low high. below j low (omega arith)))
  init_range-Allocates i (suc n) t all inside below kept =
      one_slot i t (init_range fa (suc i) n) (omega (arith, inside (omega arith))) below (λ full.
        init_range-Allocates (suc i) n t (omega arith) (λ _. omega (arith, inside (omega arith)))
          (up_to full) kept)
    where
      up_to : t.processes i ≢ 0 → TakenFrom 0 (suc i) t.processes
      up_to full j low high = elim (Bool-cases (j == i)) [
        | inl here ↦ subst (λ x. t.processes x ≢ 0) (sym (==-eq j i here)) full
        | inr other ↦ below j low (before i j high other)
      ]

  -- When the slots below the least index are taken, they are so behind an allocation that returns. It has put
  -- the process into the first empty slot and changed no other, or has found all slots taken and changed none.
  pub proc_allocate-Allocates :
      (t : Table P) → TakenFrom 0 t.process_min_index t.processes → Allocates t (proc_allocate fa t)
  unfolding proc_allocate
  proc_allocate-Allocates t kept =
      one_slot 0 t (init_range fa t.process_min_index (max_processes - t.process_min_index))
        (omega arith) (λ j low high. absurd (omega arith))
        (λ full.
          init_range-Allocates t.process_min_index (max_processes - t.process_min_index) t
            (omega arith) (λ some_left. omega arith) kept kept)
