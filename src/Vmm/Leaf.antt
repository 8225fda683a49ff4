-- ===== src/Vmm/Leaf.antt =====
-- An entry of a last table of kernel/src/mem/vmm.c changed.
use dz_os.Prelude.{
  ℕ, ◌≤◌, ◌<◌, ◌≡◌, refl, sym, ap, ◌∙◌, ◌≢◌, ◌⊎◌, inl, inr, Option, none, some, List, [], ◌∷◌,
  arith, ◌>>=◌, length,
}
use dz_os.Vmm.Tree.{
  IsFrame, child, table_at, entry_at, Inside, IsTree, Inside-index, Inside-rest, entry_of,
}

module _ (h root : ℕ) (Top : ℕ → Type 0) where
  -- A change that leaves the tables in use alone, but for one entry that leads to no table.
  module _ {free : ℕ → Type 0} {w : ℕ → ℕ → ℕ} (tree : IsTree h root Top free w) (a i : ℕ)
      (below : (p : List ℕ) → length p ≤ 2 → Inside h root Top p → table_at h root Top w p ≢ some a)
      (w' : ℕ → ℕ → ℕ)
      (same : (t j : ℕ)
        → IsFrame h t
        → (free t → ⊥)
        → j < 512
        → (t ≢ a) ⊎ (j ≢ i)
        → w' t j ≡ w t j) where
    step_same :
        (j : ℕ) (p : List ℕ) (r : Option ℕ)
        → length p ≤ 2
        → Inside h root Top (j ∷ p)
        → table_at h root Top w p ≡ r
        → (r >>= λ t. child h (w' t j)) ≡ (r >>= λ t. child h (w t j))
    step_same j p none len v e = refl
    step_same j p (some t) len v e =
        let f = tree.frame p t (omega arith) (Inside-rest h root Top j p v) e in
        let apart : t ≢ a = λ eq. below p len (Inside-rest h root Top j p v) (e ∙ ap some eq) in
        ap (child h) (same t j f.0 f.1 (Inside-index h root Top j p v) (inl apart))

    pub leaf-table :
        (p : List ℕ)
        → length p ≤ 3
        → Inside h root Top p
        → table_at h root Top w' p ≡ table_at h root Top w p
    unfolding table_at
    leaf-table [] len v = refl
    leaf-table (j ∷ p) len v =
        rw (leaf-table p (omega arith) (Inside-rest h root Top j p v))
          (step_same j p (table_at h root Top w p) (omega arith) v refl)

    pub leaf-IsTree :
        (free' : ℕ → Type 0)
        → ((p : List ℕ) (t : ℕ)
            → length p ≤ 3
            → Inside h root Top p
            → table_at h root Top w p ≡ some t
            → free' t
            → ⊥)
        → IsTree h root Top free' w'
    leaf-IsTree free' spared = record {
      frame = λ p t len v e.
          let old = sym (leaf-table p len v) ∙ e in
          ((tree.frame p t len v old).0, spared p t len v old);
      distinct = λ p q t len len' v v' e e'.
          tree.distinct p q t len len' v v' (sym (leaf-table p len v) ∙ e)
            (sym (leaf-table q len' v') ∙ e');
    }

    -- the other entries of the last tables
    pub leaf-entry :
        (p : List ℕ) (j : ℕ)
        → length p ≤ 3
        → Inside h root Top p
        → j < 512
        → (table_at h root Top w p ≢ some a) ⊎ (j ≢ i)
        → entry_at h root Top w' p j ≡ entry_at h root Top w p j
    leaf-entry p j len v index other = rw (leaf-table p len v) (go (table_at h root Top w p) refl)
      where
        go :
            (r : Option ℕ)
            → table_at h root Top w p ≡ r
            → entry_of h root Top w' j r ≡ entry_of h root Top w j r
        go none e = refl
        go (some t) e =
            let f = tree.frame p t len v e in
            let apart : (t ≢ a) ⊎ (j ≢ i) = elim other [
              | inl ne ↦ inl (λ eq. ne (e ∙ ap some eq))
              | inr ne ↦ inr ne
            ] in
            same t j f.0 f.1 index apart
