-- ===== src/Vmm/Placed.antt =====
-- One page mapped, and the loops of kernel/src/mem/vmm.c that map several, as changes of the translation.
use dz_os.Prelude.{
  ==-eq, ℕ, ◌%◌, ◌^◌, ◌≤◌, ◌<◌, ◌≡◌, refl, sym, ap, subst, ◌∙◌, ◌≢◌, ◌⊎◌, inl, inr, Bool, true,
  false, Option, none, some, List, arith, ◌==◌, Bool-cases, ==-refl, length,
}
use dz_os.Vmm.Table.{pte_is_present, pte_index, pte_at, FrameAllocator, Vm, write_pte}
use dz_os.Heap.Free.{put_u64}
use dz_os.Vmm.Walk.{walk_levels}
use dz_os.Vmm.Map.{place_pte}
use dz_os.Vmm.Tree.{IsFrame, table_at, entry_of, Inside}
use dz_os.Vmm.Leaf.{leaf-IsTree, leaf-entry, leaf-table}
use dz_os.Vmm.Entries.{put_u64_ne, words, words-put_u64_ne, words-put_u64_self, IsFrameAllocator}
use dz_os.Vmm.Path.{path, length-path, path-Inside}
use dz_os.Vmm.Walked.{Tree, Okay, Exhausted, Kept, Reached, walk_levels-Reached}
use dz_os.Vmm.Look.{page_base, same_page, pte_of}

module _ {P : Type 0} (fa : FrameAllocator P) (h root : ℕ) (Top : ℕ → Type 0)
    (Ok : (ℕ → ℕ) → P → Type 0) (Free : P → ℕ → Type 0) (laws : IsFrameAllocator fa h Ok Free) where
  abbrev pub translation : Vm P → ℕ → ℕ
  translation v va = pte_of fa h root Top v va

  -- a state as the operations want it
  abbrev pub Good : Vm P → Type 0
  Good v =
      (v.hhdm_offset ≡ h) × Tree fa h root Top Ok Free laws v × Okay fa h root Top Ok Free laws v

  -- What a round that maps the page at `va` leaves: other pages as they were, and with `b` this page, which
  -- was not mapped, at an entry of `Q`; it fails only as the allocator returned NULL.
  pub record OnePlaced (Q : ℕ → Type 0) (va : ℕ) (v : Vm P) (b : Bool) (v' : Vm P) : Type 0 where
    pub good : Good v'
    pub others :
        (vb : ℕ)
        → Top (pte_index vb 3)
        → page_base vb ≢ page_base va
        → translation v' vb ≡ translation v vb
    pub here : b ≡ true → Q (translation v' va) × (pte_is_present (translation v va) ≡ false)
    pub failed : b ≡ false → Exhausted fa h root Top Ok Free laws v'

  abbrev pub One : (ℕ → Type 0) → ℕ → Vm P → Option (Bool × Vm P) → Type 0
  One Q va v none = pte_is_present (translation v va) ≡ true
  One Q va v (some (b, v')) = OnePlaced Q va v b v'

  -- what a walk keeps, for the translation
  Kept-translation :
      (v v' : Vm P) (va : ℕ)
      → Kept fa h root Top Ok Free laws v v'
      → Top (pte_index va 3)
      → translation v' va ≡ translation v va
  unfolding pte_index
  Kept-translation v v' va k top =
      k.entries (path va 3) (pte_index va 0) (length-path va 3) (path-Inside Top h root va 3 top)
        (omega arith)

  -- the entry `e` written for `va` in the table `t`
  module _ (v : Vm P) (va t e : ℕ) (good : Good v) (top : Top (pte_index va 3))
      (at : table_at h root Top (words v.memory) (path va 3) ≡ some t) (small : e < 2 ^ 64) where
    inside : Inside h root Top (path va 3)
    inside = path-Inside Top h root va 3 top

    long : length (path va 3) ≡ 3
    long = length-path va 3

    framed_t : IsFrame h t × (Free v.pages t → ⊥)
    framed_t = good.1.frame (path va 3) t (omega (arith, long)) inside at

    below :
        (p : List ℕ)
        → length p ≤ 2
        → Inside h root Top p
        → table_at h root Top (words v.memory) p ≢ some t
    below p len ins eq =
        let same =
          good.1.distinct p (path va 3) t (omega arith) (omega (arith, long)) ins inside eq at in
        absurd (omega (arith, long, ap length same))

    index_0 : (x : ℕ) → pte_index x 0 < 512
    unfolding pte_index
    index_0 x = omega arith

    same_but :
        (s j : ℕ)
        → IsFrame h s
        → (Free v.pages s → ⊥)
        → j < 512
        → (s ≢ t) ⊎ (j ≢ pte_index va 0)
        → words (write_pte (pte_at t va 0) e v).memory s j ≡ words v.memory s j
    unfolding write_pte
    same_but s j f used index apart =
        words-put_u64_ne v.memory e (pte_index va 0) j f framed_t.0 (index_0 va) index apart

    apart :
        (vb : ℕ)
        → Top (pte_index vb 3)
        → page_base vb ≢ page_base va
        → (table_at h root Top (words v.memory) (path vb 3) ≢ some t)
          ⊎ (pte_index vb 0 ≢ pte_index va 0)
    apart vb top' ne = elim (Bool-cases (pte_index vb 0 == pte_index va 0)) [
      | inl same ↦ inl (λ eq.
          let one =
            good.1.distinct (path vb 3) (path va 3) t (omega (arith, length-path vb 3))
              (omega (arith, long)) (path-Inside Top h root vb 3 top') inside eq at in
          ne (same_page vb va one (==-eq (pte_index vb 0) (pte_index va 0) same)))
      | inr differ ↦ inr (λ eq.
          cc (subst (λ k. (pte_index vb 0 == k) ≡ false) (sym eq) differ, ==-refl (pte_index vb 0)))
    ]

    reads : translation (write_pte (pte_at t va 0) e v) va ≡ e
    unfolding write_pte
    reads =
        let w' = words (put_u64 v.memory (pte_at t va 0) e) in
        let kept =
          leaf-table h root Top good.1 t (pte_index va 0) below w' same_but (path va 3)
            (omega (arith, long)) inside in
        rw (kept ∙ at) (words-put_u64_self v.memory e t (pte_index va 0) small)

    written-OnePlaced :
        (Q : ℕ → Type 0)
        → Q e
        → pte_is_present (translation v va) ≡ false
        → OnePlaced Q va v true (write_pte (pte_at t va 0) e v)
    unfolding write_pte
    written-OnePlaced Q q absent =
        let w' = words (put_u64 v.memory (pte_at t va 0) e) in
        record {
          good = (
            good.0,
            leaf-IsTree h root Top good.1 t (pte_index va 0) below w' same_but (Free v.pages)
                (λ p s len ins eq. (good.1.frame p s len ins eq).1),
            laws.elsewhere v.memory (put_u64 v.memory (pte_at t va 0) e) v.pages t good.2 framed_t.0
                framed_t.1
                (λ x out. put_u64_ne v.memory (pte_at t va 0) e x (ground (arith, index_0 va))),
          );
          others = λ vb top' ne.
              leaf-entry h root Top good.1 t (pte_index va 0) below w' same_but (path vb 3)
                (pte_index vb 0) (omega (arith, length-path vb 3))
                (path-Inside Top h root vb 3 top') (index_0 vb) (apart vb top' ne);
          here = λ _. (subst Q (sym reads) q, absent);
          failed = λ f. cc;
        }

  -- a page mapped after a change that keeps the translation
  pub after-OnePlaced :
      (Q : ℕ → Type 0) (va : ℕ) (v u w : Vm P) (b : Bool)
      → Kept fa h root Top Ok Free laws v u
      → Top (pte_index va 3)
      → OnePlaced Q va u b w
      → OnePlaced Q va v b w
  after-OnePlaced Q va v u w b kept top o = record {
    good = o.good;
    others = λ vb top' ne. o.others vb top' ne ∙ Kept-translation v u vb kept top';
    here = λ done.
        let r = o.here done in
        (r.0, subst (λ x. pte_is_present x ≡ false) (Kept-translation v u va kept top) r.1);
    failed = o.failed;
  }

  -- the entry `e` placed in what a walk from `v` returns
  pub Reached-One :
      (Q : ℕ → Type 0) (va e at : ℕ) (v u : Vm P)
      → Good v
      → Top (pte_index va 3)
      → e < 2 ^ 64
      → Q e
      → Reached fa h root Top Ok Free laws true va v (at, u)
      → One Q va v (place_pte e (at, u))
  unfolding place_pte
  Reached-One Q va e at v u good top word q (kept, inl (null, why)) = rw null (record {
    good = (kept.hhdm ∙ good.0, kept.tree, kept.ok);
    others = λ vb top' ne. Kept-translation v u vb kept top';
    here = λ f. cc;
    failed = λ _. why refl;
  })
  Reached-One Q va e at v u good top word q (kept, inr (t, found, table)) =
      let good' : Good u = (kept.hhdm ∙ good.0, kept.tree, kept.ok) in
      let same = Kept-translation v u va kept top in
      let frame = framed_t u va t e good' top table word in
      let some_pte : (at == 0) ≡ false = ground (arith, frame.0.ne_null) in
      let entry : words u.memory t (pte_index va 0) ≡ translation u va =
        sym (ap (entry_of h root Top (words u.memory) (pte_index va 0)) table) in
      elim (Bool-cases (pte_is_present (words u.memory t (pte_index va 0)))) [
        | inl present ↦
            rw (some_pte, found)
              (rw present (subst (λ x. pte_is_present x ≡ true) (entry ∙ same) present))
        | inr absent ↦
            rw (some_pte, found)
              (rw absent (
                after-OnePlaced Q va v u (write_pte (pte_at t va 0) e u) true kept top (
                  written-OnePlaced u va t e good' top table word Q q
                    (subst (λ x. pte_is_present x ≡ false) entry absent))))
      ]

  -- The entry `e` placed where a walk that adds tables arrives.
  pub place-One :
      (Q : ℕ → Type 0) (flags va e : ℕ) (v : Vm P)
      → flags < 4096
      → flags % 2 ≡ 1
      → Good v
      → Top (pte_index va 3)
      → e < 2 ^ 64
      → Q e
      → One Q va v (place_pte e (walk_levels fa flags true va root 3 v))
  unfolding table_at path
  place-One Q flags va e v small odd good top word q =
      let r = walk_levels fa flags true va root 3 v in
      Reached-One Q va e r.0 v r.1 good top word q (
        walk_levels-Reached fa h root Top Ok Free laws flags true va 3 root v small odd good.0
          good.1 good.2 (omega arith) top refl)
