-- ===== src/Vmm/Linked.antt =====
-- The memory of kernel/src/mem/vmm.c with a new table linked into a page table.
use dz_os.Prelude.{
  ℕ, ◌+◌, ◌*◌, ◌^◌, ◌≤◌, ◌<◌, ◌≡◌, sym, ap, subst, ◌∙◌, ◌≢◌, ◌⊎◌, inl, inr, ◌&&◌, none, some, List,
  ◌∷◌, arith, ltb, leb, if◌then◌else◌, length,
}
use dz_os.Heap.Free.{put_u64}
use dz_os.Vmm.Table.{Vm}
use dz_os.Vmm.Tree.{IsFrame, child, table_at, entry_at, Inside, Inside-index, Inside-rest, IsTree}
use dz_os.Vmm.Link.{link-IsTree, link-entry, link-kept, link-origin}
use dz_os.Vmm.Entries.{
  put_u64_ne, words, words-put_u64_ne, words-put_u64_self, words-outside, words-zero, Gives,
  Gives-aligned, Gives-ne,
}

-- the memory with a new table linked at entry `i` of `a`
module _ {P : Type 0} (h root : ℕ) (Top : ℕ → Type 0) (Ok : (ℕ → ℕ) → P → Type 0)
    (Free : P → ℕ → Type 0) (v : Vm P) (a i e : ℕ) (q : List ℕ) (r : ℕ × (ℕ → ℕ) × P)
    (tree : IsTree h root Top (Free v.pages) (words v.memory)) (short : length q ≤ 2)
    (inside : Inside h root Top (i ∷ q)) (at : table_at h root Top (words v.memory) q ≡ some a)
    (absent : child h (words v.memory a i) ≡ none) (g : Gives h Ok Free v.memory v.pages r)
    (ne : r.0 ≢ 0) (small : e < 2 ^ 64) (leads : child h e ≡ some r.0) where
  abbrev pub linked_memory : ℕ → ℕ
  linked_memory = put_u64 (λ x. if leb r.0 x && ltb x (r.0 + 4096) then 0 else r.1 x) (a + 8 * i) e

  framed_a : IsFrame h a × (Free v.pages a → ⊥)
  framed_a = tree.frame q a (omega arith) (Inside-rest h root Top i q inside) at

  index_i : i < 512
  index_i = Inside-index h root Top i q inside

  to_new : child h (words linked_memory a i) ≡ some r.0
  to_new =
      ap (child h)
        (words-put_u64_self (λ x. if leb r.0 x && ltb x (r.0 + 4096) then 0 else r.1 x) e a i small)
      ∙ leads

  empty : (j : ℕ) → j < 512 → words linked_memory r.0 j ≡ 0
  empty j index =
      let filled = λ (x : ℕ). if leb r.0 x && ltb x (r.0 + 4096) then 0 else r.1 x in
      words-put_u64_ne filled e i j (g.page ne).0 framed_a.0 index_i index
        (inl (λ eq. Gives-ne g a framed_a.0 framed_a.1 (sym eq)))
      ∙ words-zero filled r.0 j (λ x low high. ground arith) index

  same :
      (t j : ℕ)
      → IsFrame h t
      → t ≢ r.0
      → j < 512
      → (t ≢ a) ⊎ (j ≢ i)
      → words linked_memory t j ≡ words v.memory t j
  same t j f other index apart =
      let filled = λ (x : ℕ). if leb r.0 x && ltb x (r.0 + 4096) then 0 else r.1 x in
      words-put_u64_ne filled e i j f framed_a.0 index_i index apart
      ∙ words-outside v.memory filled r.0 t j (λ x out. outside_fill x out ∙ g.outside x out)
          (Gives-aligned g) f other index
    where
      outside_fill :
          (x : ℕ)
          → (x < r.0) ⊎ (r.0 + 4096 ≤ x)
          → (if leb r.0 x && ltb x (r.0 + 4096) then 0 else r.1 x) ≡ r.1 x
      outside_fill x out = ground arith

  pub linked-IsTree : IsTree h root Top (Free r.2) (words linked_memory)
  linked-IsTree =
      link-IsTree h root Top tree a i r.0 q short inside at absent (g.page ne).1
        (words linked_memory) to_new empty same (Free r.2) g.fewer (g.page ne).0

  pub linked_entries :
      (p : List ℕ) (j : ℕ)
      → length p ≡ 3
      → Inside h root Top p
      → j < 512
      → entry_at h root Top (words linked_memory) p j ≡ entry_at h root Top (words v.memory) p j
  linked_entries p j len ins index =
      link-entry h root Top tree a i r.0 q short inside at absent (g.page ne).1
        (words linked_memory) to_new empty same p j len ins index

  pub linked_origin :
      (p : List ℕ) (t : ℕ)
      → length p ≤ 3
      → Inside h root Top p
      → table_at h root Top (words linked_memory) p ≡ some t
      → (table_at h root Top (words v.memory) p ≡ some t) ⊎ Free v.pages t
  linked_origin p t len ins e =
      let o =
        link-origin h root Top tree a i r.0 q short inside at absent (g.page ne).1
          (words linked_memory) to_new empty same p t len ins e in
      elim o [
        | inl old ↦ inl old
        | inr (place, new) ↦ inr (subst (Free v.pages) (sym new) (g.page ne).1)
      ]

  pub linked_at : table_at h root Top (words linked_memory) (i ∷ q) ≡ some r.0
  unfolding table_at
  linked_at =
      let kept =
        link-kept h root Top tree a i r.0 q short inside at absent (g.page ne).1
          (words linked_memory) to_new empty same q a (omega arith)
          (Inside-rest h root Top i q inside) at in
      rw kept to_new

  -- the allocator is still in order: the writes go to the page handed out and to a table
  pub linked_ok :
      ((m m' : ℕ → ℕ) (s : P) (t : ℕ)
        → Ok m s
        → IsFrame h t
        → (Free s t → ⊥)
        → ((x : ℕ) → (x < t) ⊎ (t + 4096 ≤ x) → m' x ≡ m x)
        → Ok m' s)
      → Ok linked_memory r.2
  linked_ok elsewhere =
      let filled = λ (x : ℕ). if leb r.0 x && ltb x (r.0 + 4096) then 0 else r.1 x in
      let fresh =
        elsewhere r.1 filled r.2 r.0 g.ok (g.page ne).0 (λ f. (g.fewer r.0 f).1 (λ i. r.0))
          (λ x out. ground arith) in
      elsewhere filled linked_memory r.2 a fresh framed_a.0 (λ f. framed_a.1 (g.fewer a f).0)
        (λ x out. put_u64_ne filled (a + 8 * i) e x (ground (arith, index_i)))
