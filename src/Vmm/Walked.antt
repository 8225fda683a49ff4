-- ===== src/Vmm/Walked.antt =====
-- What a walk of kernel/src/mem/vmm.c does to the tree of a page table: the tables that it adds lead to no
-- page yet, and it arrives at the entry of the address.
use dz_os.Prelude.{
  ==-eq, ℕ, zero, suc, ◌+◌, ◌-◌, ◌*◌, ◌%◌, ◌^◌, ◌≤◌, ◌<◌, ◌≡◌, refl, sym, ap, subst, ◌∙◌, ◌≢◌, ◌⊎◌,
  inl, inr, Bool, true, false, not, Option, none, some, List, ◌∷◌, arith, ◌==◌, if◌then◌else◌, u64,
  Bool-cases, ==-refl, length,
}
use dz_os.Vmm.Table.{
  pte_addr, pte_is_present, pte_index, pte_at, FrameAllocator, Vm, p2v, write_pte, fill_bytes,
  allocated,
}
use dz_os.Vmm.Walk.{link_table, next_table, walk_levels}
use dz_os.Vmm.Tree.{IsFrame, child, table_at, entry_at, Inside, IsTree}
use dz_os.Vmm.Leaf.{leaf-IsTree, leaf-entry, leaf-table}
use dz_os.Vmm.Entries.{
  words, words-outside, Gives, IsFrameAllocator, child-link, pte_addr-bound, Gives-aligned,
  Gives-ne,
}
use dz_os.Vmm.Path.{path, length-path, path-Inside, path_step}
use dz_os.Vmm.Linked.{linked-IsTree, linked_entries, linked_origin, linked_at, linked_ok}

module _ {P : Type 0} (fa : FrameAllocator P) (h root : ℕ) (Top : ℕ → Type 0)
    (Ok : (ℕ → ℕ) → P → Type 0) (Free : P → ℕ → Type 0) (laws : IsFrameAllocator fa h Ok Free) where
  abbrev pub Tree : Vm P → Type 0
  Tree v = IsTree h root Top (Free v.pages) (words v.memory)

  abbrev pub At : Vm P → List ℕ → Option ℕ
  At v p = table_at h root Top (words v.memory) p

  -- the allocator is in order
  abbrev pub Okay : Vm P → Type 0
  Okay v = Ok v.memory v.pages

  -- the state is the one that a call of the allocator, in order before it, left when it returned NULL
  abbrev pub Exhausted : Vm P → Type 0
  Exhausted v = (m : ℕ → ℕ) × (s : P) × Ok m s × (fa.kalloc m s ≡ (0, v.memory, v.pages))

  -- What a walk keeps: the tree and all translations.
  pub record Kept (v v' : Vm P) : Type 0 where
    pub hhdm : v'.hhdm_offset ≡ v.hhdm_offset
    pub tree : Tree v'
    pub entries :
        (p : List ℕ) (j : ℕ)
        → length p ≡ 3
        → Inside h root Top p
        → j < 512
        → entry_at h root Top (words v'.memory) p j ≡ entry_at h root Top (words v.memory) p j
    pub fewer : (t : ℕ) → Free v'.pages t → Free v.pages t
    pub ok : Okay v'
    pub origin :
        (p : List ℕ) (t : ℕ)
        → length p ≤ 3
        → Inside h root Top p
        → At v' p ≡ some t
        → (At v p ≡ some t) ⊎ Free v.pages t

  pub Kept-refl : (v : Vm P) → Tree v → Okay v → Kept v v
  Kept-refl v tree ok = record {
    ok = ok;
    hhdm = refl;
    tree = tree;
    entries = λ p j len inside index. refl;
    fewer = λ t f. f;
    origin = λ p t len inside e. inl e;
  }

  abbrev Arrives : Bool → Vm P → List ℕ → Option ℕ × Vm P → Type 0
  Arrives alloc v p r =
      Kept v r.1
      × (((r.0 ≡ none) × (alloc ≡ true → Exhausted r.1))
          ⊎ ((t : ℕ) × (r.0 ≡ some t) × (At r.1 p ≡ some t)))

  -- an allocation by itself changes no table
  pub allocated-Kept :
      (v : Vm P) (r : ℕ × (ℕ → ℕ) × P)
      → Gives h Ok Free v.memory v.pages r
      → Tree v
      → Kept v (allocated r v).1
  unfolding allocated
  allocated-Kept v r g tree = record {
    ok = g.ok;
    hhdm = refl;
    tree = leaf-IsTree h root Top tree 0 0 below (words r.1) same (Free r.2) spared;
    entries = λ p j len inside index.
        leaf-entry h root Top tree 0 0 below (words r.1) same p j (omega arith) inside index
          (inl (below' p (omega arith) inside));
    fewer = λ t f. (g.fewer t f).0;
    origin = λ p t len inside e.
        inl (sym (leaf-table h root Top tree 0 0 below (words r.1) same p len inside) ∙ e);
  }
    where
      below' : (p : List ℕ) → length p ≤ 3 → Inside h root Top p → At v p ≢ some 0
      below' p len inside e = absurd (omega (arith, (tree.frame p 0 len inside e).0.ne_null))

      below : (p : List ℕ) → length p ≤ 2 → Inside h root Top p → At v p ≢ some 0
      below p len inside e = below' p (omega arith) inside e

      same :
          (t j : ℕ)
          → IsFrame h t
          → (Free v.pages t → ⊥)
          → j < 512
          → (t ≢ 0) ⊎ (j ≢ 0)
          → words r.1 t j ≡ words v.memory t j
      same t j f used index other =
          words-outside v.memory r.1 r.0 t j g.outside (Gives-aligned g) f (Gives-ne g t f used)
            index

      spared :
          (p : List ℕ) (t : ℕ)
          → length p ≤ 3
          → Inside h root Top p
          → At v p ≡ some t
          → Free r.2 t
          → ⊥
      spared p t len inside e f = (tree.frame p t len inside e).1 (g.fewer t f).0

  link_table-Arrives :
      (flags : ℕ) (v : Vm P) (a i : ℕ) (q : List ℕ) (r : ℕ × (ℕ → ℕ) × P)
      → flags < 4096
      → flags % 2 ≡ 1
      → v.hhdm_offset ≡ h
      → Tree v
      → length q ≤ 2
      → Inside h root Top (i ∷ q)
      → At v q ≡ some a
      → child h (words v.memory a i) ≡ none
      → Gives h Ok Free v.memory v.pages r
      → (r.0 ≡ 0 → Exhausted (allocated r v).1)
      → Arrives true v (i ∷ q) (link_table fa flags (a + 8 * i) (allocated r v))
  unfolding link_table allocated write_pte fill_bytes
  link_table-Arrives flags v a i q r small odd hh tree short inside at absent g out =
      elim (Bool-cases (r.0 == 0)) [
        | inl null ↦ rw null (allocated-Kept v r g tree, inl (refl, λ _. out (==-eq r.0 0 null)))
        | inr page ↦
            let ne : r.0 ≢ 0 = λ z. cc (page, z, ==-refl 0) in
            let e = flags + pte_addr (u64 (r.0 + 2 ^ 64 - v.hhdm_offset)) in
            let bound = pte_addr-bound (u64 (r.0 + 2 ^ 64 - v.hhdm_offset)) in
            let word : e < 2 ^ 64 = omega (arith, bound) in
            let leads : child h e ≡ some r.0 =
              subst (λ k. child h (flags + pte_addr (u64 (r.0 + 2 ^ 64 - k))) ≡ some r.0) (sym hh)
                (child-link h r.0 flags laws.hhdm_aligned (g.page ne).0 small odd) in
            rw page (
              record {
                hhdm = refl;
                ok =
                    linked_ok h root Top Ok Free v a i e q r tree short inside at absent g ne word
                      leads laws.elsewhere;
                tree =
                    linked-IsTree h root Top Ok Free v a i e q r tree short inside at absent g ne
                      word leads;
                entries =
                    linked_entries h root Top Ok Free v a i e q r tree short inside at absent g ne
                      word leads;
                fewer = λ t f. (g.fewer t f).0;
                origin =
                    linked_origin h root Top Ok Free v a i e q r tree short inside at absent g ne
                      word leads;
              },
              inr (
                r.0,
                refl,
                linked_at h root Top Ok Free v a i e q r tree short inside at absent g ne word
                    leads,
              ),
            )
      ]

  step_table :
      (v : Vm P) (a i : ℕ) (q : List ℕ)
      → pte_is_present (words v.memory a i) ≡ true
      → v.hhdm_offset ≡ h
      → At v q ≡ some a
      → At v (i ∷ q) ≡ some (p2v v (pte_addr (words v.memory a i)))
  unfolding table_at child
  step_table v a i q present hh at =
      rw at (rw present (ap (λ (k : ℕ). some (u64 (pte_addr (words v.memory a i) + k))) (sym hh)))

  no_step :
      (v : Vm P) (a i : ℕ)
      → pte_is_present (words v.memory a i) ≡ false
      → child h (words v.memory a i) ≡ none
  unfolding child
  no_step v a i absent = rw absent refl

  next_table-Arrives :
      (flags : ℕ) (alloc : Bool) (v : Vm P) (a i : ℕ) (q : List ℕ)
      → flags < 4096
      → flags % 2 ≡ 1
      → v.hhdm_offset ≡ h
      → Tree v
      → Okay v
      → length q ≤ 2
      → Inside h root Top (i ∷ q)
      → At v q ≡ some a
      → Arrives alloc v (i ∷ q) (next_table fa flags alloc (a + 8 * i) v)
  unfolding next_table allocated
  next_table-Arrives flags alloc v a i q small odd hh tree ok short inside at =
      elim (Bool-cases (pte_is_present (words v.memory a i))) [
        | inl present ↦
            rw present (
              Kept-refl v tree ok,
              inr (p2v v (pte_addr (words v.memory a i)), refl, follow present),
            )
        | inr absent ↦ rw absent (go alloc absent)
      ]
    where
      follow :
          pte_is_present (words v.memory a i) ≡ true
          → At v (i ∷ q) ≡ some (p2v v (pte_addr (words v.memory a i)))
      follow present = step_table v a i q present hh at

      go :
          (b : Bool)
          → pte_is_present (words v.memory a i) ≡ false
          → Arrives b v (i ∷ q) (
              if not b
              then (none, v)
              else link_table fa flags (a + 8 * i) (allocated (fa.kalloc v.memory v.pages) v))
      go false absent = (Kept-refl v tree ok, inl (refl, λ e. cc))
      go true absent =
          link_table-Arrives flags v a i q (fa.kalloc v.memory v.pages) small odd hh tree short
            inside at (no_step v a i absent) (laws.kalloc_gives v.memory v.pages ok)
            (λ z.
              let r = fa.kalloc v.memory v.pages in
              (v.memory, v.pages, ok, ap (λ k. (k, r.1, r.2)) z))

  -- the path to the table of an address at a level, and what a walk from there returns
  abbrev pub Reached : Bool → ℕ → Vm P → ℕ × Vm P → Type 0
  Reached alloc va v r =
      Kept v r.1
      × (((r.0 ≡ 0) × (alloc ≡ true → Exhausted r.1))
          ⊎ ((t : ℕ) × (r.0 ≡ pte_at t va 0) × (At r.1 (path va 3) ≡ some t)))

  pub Kept-trans : (v u w : Vm P) → Kept v u → Kept u w → Kept v w
  Kept-trans v u w a b = record {
    hhdm = b.hhdm ∙ a.hhdm;
    ok = b.ok;
    tree = b.tree;
    entries =
        λ p j len inside index. b.entries p j len inside index ∙ a.entries p j len inside index;
    fewer = λ t f. a.fewer t (b.fewer t f);
    origin = λ p t len inside e. elim (b.origin p t len inside e) [
      | inl here ↦ a.origin p t len inside here
      | inr new ↦ inr (a.fewer t new)
    ];
  }

  pub walk_levels-Reached :
      (flags : ℕ) (alloc : Bool) (va level t : ℕ) (v : Vm P)
      → flags < 4096
      → flags % 2 ≡ 1
      → v.hhdm_offset ≡ h
      → Tree v
      → Okay v
      → level ≤ 3
      → Top (pte_index va 3)
      → At v (path va (3 - level)) ≡ some t
      → Reached alloc va v (walk_levels fa flags alloc va t level v)
  unfolding walk_levels
  walk_levels-Reached flags alloc va zero t v small odd hh tree ok low top at =
      (Kept-refl v tree ok, inr (t, refl, at))
  walk_levels-Reached flags alloc va (suc level) t v small odd hh tree ok low top at =
      let n = 3 - suc level in
      let down : path va (3 - level) ≡ pte_index va (suc level) ∷ path va n =
        path_step va level low in
      let inside = path-Inside Top h root va (3 - level) top in
      let step =
        next_table-Arrives flags alloc v t (pte_index va (suc level)) (path va n) small odd hh tree
          ok (omega (arith, length-path va n)) (subst (Inside h root Top) down inside) at in
      let r = next_table fa flags alloc (pte_at t va (suc level)) v in
      elim step.1 [
        | inl (none_left, why) ↦ rw (none_left, walk_levels) (step.0, inl (refl, why))
        | inr (t', found, at') ↦
            let rest =
              walk_levels-Reached flags alloc va level t' r.1 small odd (step.0.hhdm ∙ hh)
                step.0.tree step.0.ok (omega arith) top
                (subst (λ k. At r.1 k ≡ some t') (sym down) at') in
            rw (found, walk_levels)
              (
                Kept-trans v r.1 (walk_levels fa flags alloc va t' level r.1).1 step.0 rest.0,
                rest.1,
              )
      ]
