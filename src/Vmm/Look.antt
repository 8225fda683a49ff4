-- ===== src/Vmm/Look.antt =====
-- The translation of an address: what a walk of kernel/src/mem/vmm.c that adds no table finds, and which
-- addresses share an entry.
use dz_os.Prelude.{
  ==-eq, ℕ, zero, suc, ◌+◌, ◌-◌, ◌*◌, ◌/◌, ◌%◌, ◌^◌, ◌≤◌, ◌<◌, ◌≡◌, refl, sym, ap, subst, inl, inr,
  Bool, true, false, not, ◌&&◌, ◌||◌, Option, none, some, List, ◌∷◌, arith, ltb, leb, ◌==◌, u64,
  Bool-cases, get_or,
}
use dz_os.Vmm.Table.{
  pte_addr, pte_is_present, pte_index, pte_at, userspace_va_max, userspace_va_min, FrameAllocator,
  Vm, p2v,
}
use dz_os.Vmm.Walk.{
  user_table, next_table, walk_levels, walk, found_pte, entry_address, vmm_walkaddr,
}
use dz_os.Vmm.Tree.{child, table_at, entry_of, entry_at, IsTree}
use dz_os.Vmm.Entries.{words}
use dz_os.Vmm.Path.{path, length-path, path-Inside, path_step}

-- the page of an address among those that the indices tell apart
abbrev pub page_base : ℕ → ℕ
page_base va = va / 4096 % 2 ^ 36

-- Addresses with the same indices lie in the same page.
pub same_page :
    (va vb : ℕ)
    → path va 3 ≡ path vb 3
    → pte_index va 0 ≡ pte_index vb 0
    → page_base va ≡ page_base vb
unfolding path pte_index
same_page va vb e i =
    let i1 = ap (λ l. get_or l 0 0) e in
    let i2 = ap (λ l. get_or l 1 0) e in
    let i3 = ap (λ l. get_or l 2 0) e in omega (arith, i, i1, i2, i3)

module _ {P : Type 0} (fa : FrameAllocator P) (h root : ℕ) (Top : ℕ → Type 0) where
  -- the entry of an address, 0 when a table is missing
  abbrev pub pte_of : Vm P → ℕ → ℕ
  pte_of v va = entry_at h root Top (words v.memory) (path va 3) (pte_index va 0)

  -- the address of an entry, 0 when a table is missing
  abbrev slot : ℕ → Option ℕ → ℕ
  slot va none = 0
  slot va (some t) = pte_at t va 0

  abbrev At' : Vm P → List ℕ → Option ℕ
  At' v p = table_at h root Top (words v.memory) p

  -- below a missing table there is none
  none_below : (v : Vm P) (va n k : ℕ) → k ≤ n → At' v (path va k) ≡ none → At' v (path va n) ≡ none
  unfolding path table_at
  none_below v va zero k low e =
      let z : k ≡ 0 = omega arith in subst (λ j. At' v (path va j) ≡ none) z e
  none_below v va (suc n) k low e = elim (Bool-cases (k == suc n)) [
    | inl same ↦ subst (λ j. At' v (path va j) ≡ none) (==-eq k (suc n) same) e
    | inr less ↦ rw (none_below v va n k (ground arith) e) refl
  ]

  step_present :
      (v : Vm P) (t i : ℕ) (q : List ℕ)
      → pte_is_present (words v.memory t i) ≡ true
      → v.hhdm_offset ≡ h
      → At' v q ≡ some t
      → At' v (i ∷ q) ≡ some (p2v v (pte_addr (words v.memory t i)))
  unfolding table_at child
  step_present v t i q present hh at =
      rw at (rw present (ap (λ (k : ℕ). some (u64 (pte_addr (words v.memory t i) + k))) (sym hh)))

  step_absent :
      (v : Vm P) (t i : ℕ) (q : List ℕ)
      → pte_is_present (words v.memory t i) ≡ false
      → At' v q ≡ some t
      → At' v (i ∷ q) ≡ none
  unfolding table_at child
  step_absent v t i q absent at = rw at (rw absent refl)

  next_present :
      (v : Vm P) (t i : ℕ)
      → pte_is_present (words v.memory t i) ≡ true
      → next_table fa user_table false (t + 8 * i) v
        ≡ (some (p2v v (pte_addr (words v.memory t i))), v)
  unfolding next_table
  next_present v t i present = rw present refl

  next_absent :
      (v : Vm P) (t i : ℕ)
      → pte_is_present (words v.memory t i) ≡ false
      → next_table fa user_table false (t + 8 * i) v ≡ (none, v)
  unfolding next_table
  next_absent v t i absent = rw absent refl

  walk_levels-look :
      (va level t : ℕ) (v : Vm P)
      → v.hhdm_offset ≡ h
      → level ≤ 3
      → table_at h root Top (words v.memory) (path va (3 - level)) ≡ some t
      → walk_levels fa user_table false va t level v
        ≡ (slot va (table_at h root Top (words v.memory) (path va 3)), v)
  unfolding walk_levels
  walk_levels-look va zero t v hh low at = rw at refl
  walk_levels-look va (suc level) t v hh low at =
      let i = pte_index va (suc level) in
      let q = path va (3 - suc level) in
      elim (Bool-cases (pte_is_present (words v.memory t i))) [
        | inl present ↦
            let t' = p2v v (pte_addr (words v.memory t i)) in
            let down =
              subst (λ k. At' v k ≡ some t') (sym (path_step va level low))
                (step_present v t i q present hh at) in
            let step = next_present v t i present in
            rw (ap (λ r. r.0) step, walk_levels, ap (λ r. r.1) step)
              (walk_levels-look va level t' v hh (omega arith) down)
        | inr absent ↦
            let missing =
              subst (λ k. At' v k ≡ none) (sym (path_step va level low))
                (step_absent v t i q absent at) in
            let step = next_absent v t i absent in
            rw (ap (λ r. r.0) step, walk_levels, ap (λ r. r.1) step)
              (rw (none_below v va 3 (3 - level) (omega arith) missing) refl)
      ]

  module _ (free : ℕ → Type 0) (v : Vm P) (tree : IsTree h root Top free (words v.memory))
      (hh : v.hhdm_offset ≡ h) where
    -- A walk without allocation finds the entry of the address and changes nothing.
    pub found_pte-walk :
        (va : ℕ)
        → Top (pte_index va 3)
        → found_pte v (walk_levels fa user_table false va root 3 v).0 ≡ pte_of v va
    unfolding table_at path
    found_pte-walk va top =
        rw (walk_levels-look va 3 root v hh (omega arith) refl) (go (At' v (path va 3)) refl)
      where
        go :
            (r : Option ℕ)
            → At' v (path va 3) ≡ r
            → found_pte v (slot va r) ≡ entry_of h root Top (words v.memory) (pte_index va 0) r
        go none e = refl
        go (some t) e =
            let f =
              tree.frame (path va 3) t (omega (arith, length-path va 3))
                (path-Inside Top h root va 3 top) e in
            let ne : (pte_at t va 0 == 0) ≡ false = ground (arith, f.0.ne_null) in rw ne refl

    in_range :
        (va : ℕ)
        → userspace_va_min ≤ va
        → va < userspace_va_max
        → ((not false && leb userspace_va_max va) || ltb va userspace_va_min) ≡ false
    in_range va low high = ground arith

    pub walk-look :
        (va : ℕ)
        → Top (pte_index va 3)
        → userspace_va_min ≤ va
        → va < userspace_va_max
        → (at : ℕ) × (walk fa root va false false v ≡ some (at, v)) × (found_pte v at ≡ pte_of v va)
    unfolding walk table_at path
    walk-look va top low high =
        let e = walk_levels-look va 3 root v hh (omega arith) refl in
        (
          slot va (At' v (path va 3)),
          rw (in_range va low high) (ap some e),
          subst (λ (r : ℕ × Vm P). found_pte v r.0 ≡ pte_of v va) e (found_pte-walk va top),
        )

    -- `vmm_walkaddr` translates an address of user space by its entry, and changes nothing.
    pub walkaddr_lem :
        (va : ℕ) (user : Bool)
        → Top (pte_index va 3)
        → userspace_va_min ≤ va
        → va < userspace_va_max
        → vmm_walkaddr fa root va user v ≡ some (entry_address user (pte_of v va), v)
    unfolding vmm_walkaddr
    walkaddr_lem va user top low high =
        let w = walk-look va top low high in
        let below : leb userspace_va_max va ≡ false = ground arith in
        rw (below, w.1) (ap (λ e. some (entry_address user e, v)) w.2)
