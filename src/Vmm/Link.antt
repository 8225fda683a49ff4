-- ===== src/Vmm/Link.antt =====
-- A new table linked into the tree of a page table of kernel/src/mem/vmm.c.
use dz_os.Prelude.{
  ℕ, ◌≤◌, ◌<◌, ◌≡◌, refl, sym, ap, subst, ◌∙◌, ◌≢◌, ◌⊎◌, inl, inr, none, some, List, [], ◌∷◌, arith,
  length,
}
use dz_os.Vmm.Table.{pte_is_present}
use dz_os.Vmm.Tree.{
  IsFrame, child, Option-cases, table_at, entry_at, Inside, IsTree, SameBut, Inside-index,
  Inside-rest, table_at-inv,
}

module _ (h root : ℕ) (Top : ℕ → Type 0) where
  module _ {free : ℕ → Type 0} {w : ℕ → ℕ → ℕ} (tree : IsTree h root Top free w) (a i n : ℕ)
      (q : List ℕ) (short : length q ≤ 2) (inside : Inside h root Top (i ∷ q))
      (at : table_at h root Top w q ≡ some a) (absent : child h (w a i) ≡ none) (is_free : free n)
      (w' : ℕ → ℕ → ℕ) (linked : child h (w' a i) ≡ some n) (empty : (j : ℕ) → j < 512 → w' n j ≡ 0)
      (same : SameBut h root Top n a i w w') where
    -- a table of the tree is another page than the one that is linked
    ne_new :
        (p : List ℕ) (t : ℕ)
        → length p ≤ 3
        → Inside h root Top p
        → table_at h root Top w p ≡ some t
        → t ≢ n
    ne_new p t len v e eq = (tree.frame p t len v e).1 (subst free (sym eq) is_free)

    apart : (t j : ℕ) → ((t ≡ a) × (j ≡ i)) ⊎ ((t ≢ a) ⊎ (j ≢ i))
    apart t j = ground arith

    clash : (s j t : ℕ) → (s ≡ a) × (j ≡ i) → child h (w s j) ≡ some t → ⊥
    clash s j t (table, entry) e = cc

    fresh : (s j t : ℕ) → s ≡ a → j ≡ i → child h (w' s j) ≡ some t → t ≡ n
    fresh s j t table entry e = cc

    place : (p : List ℕ) (j : ℕ) → p ≡ q → j ≡ i → j ∷ p ≡ i ∷ q
    place p j path entry = cc

    no_child : (s j t : ℕ) → s ≡ n → j < 512 → child h (w' s j) ≡ some t → ⊥
    unfolding child pte_is_present
    no_child s j t new index e =
        let zero_entry : w' s j ≡ 0 = rw new (empty j index) in
        let nothing : child h 0 ≡ none = refl in cc

    -- every table stays where it was
    pub link-kept :
        (p : List ℕ) (t : ℕ)
        → length p ≤ 3
        → Inside h root Top p
        → table_at h root Top w p ≡ some t
        → table_at h root Top w' p ≡ some t
    unfolding table_at
    link-kept [] t len v e = e
    link-kept (j ∷ p) t len v e =
        let s = table_at-inv h root Top w j t p e in
        let inner = Inside-rest h root Top j p v in
        let kept = link-kept p s.0 (omega arith) inner s.1 in
        let old = tree.frame p s.0 (omega arith) inner s.1 in
        let ne = ne_new p s.0 (omega arith) inner s.1 in
        elim (apart s.0 j) [
          | inl here ↦ absurd (clash s.0 j t here s.2)
          | inr there ↦ rw kept (rw (same s.0 j old.0 ne (Inside-index h root Top j p v) there) s.2)
        ]

    -- a table of the new tree is an old one, or the new one in its place
    pub link-origin :
        (p : List ℕ) (t : ℕ)
        → length p ≤ 3
        → Inside h root Top p
        → table_at h root Top w' p ≡ some t
        → (table_at h root Top w p ≡ some t) ⊎ ((p ≡ i ∷ q) × (t ≡ n))
    unfolding table_at
    link-origin [] t len v e = inl e
    link-origin (j ∷ p) t len v e =
        let s = table_at-inv h root Top w' j t p e in
        let inner = Inside-rest h root Top j p v in
        let index = Inside-index h root Top j p v in
        elim (link-origin p s.0 (omega arith) inner s.1) [
          | inl old ↦ elim (apart s.0 j) [
            | inl (table, entry) ↦ inr (
              place p j
                  (tree.distinct p q a (omega arith) (omega arith) inner
                    (Inside-rest h root Top i q inside)
                    (subst (λ k. table_at h root Top w p ≡ some k) table old) at)
                  entry,
              fresh s.0 j t table entry s.2,
            )
            | inr there ↦
                let f = tree.frame p s.0 (omega arith) inner old in
                inl (
                  rw old
                    (rw (← same s.0 j f.0 (ne_new p s.0 (omega arith) inner old) index there) s.2))
          ]
          | inr (path, new) ↦ absurd (no_child s.0 j t new index s.2)
        ]

    pub link-IsTree :
        (free' : ℕ → Type 0)
        → ((t : ℕ) → free' t → free t × (t ≢ n))
        → IsFrame h n
        → IsTree h root Top free' w'
    link-IsTree free' fewer frame_n = record {
      frame = λ p t len v e. elim (link-origin p t len v e) [
        | inl old ↦ let f = tree.frame p t len v old in (f.0, λ still. f.1 (fewer t still).0)
        | inr (path, new) ↦ (subst (IsFrame h) (sym new) frame_n, λ still. (fewer t still).1 new)
      ];
      distinct = λ p p' t len len' v v' e e'. elim (link-origin p t len v e) [
        | inl old ↦ elim (link-origin p' t len' v' e') [
          | inl old' ↦ tree.distinct p p' t len len' v v' old old'
          | inr (path', new') ↦ absurd (ne_new p t len v old new')
        ]
        | inr (path, new) ↦ elim (link-origin p' t len' v' e') [
          | inl old' ↦ absurd (ne_new p' t len' v' old' new)
          | inr (path', new') ↦ path ∙ sym path'
        ]
      ];
    }

    off :
        (p : List ℕ) (t : ℕ)
        → length p ≡ 3
        → Inside h root Top p
        → table_at h root Top w p ≡ some t
        → t ≢ a
    off p t len v e eq =
        let path : p ≡ q =
          tree.distinct p q a (omega arith) (omega arith) v (Inside-rest h root Top i q inside)
            (subst (λ k. table_at h root Top w p ≡ some k) eq e) at in
        absurd (omega (arith, ap length path))

    -- every entry of the last tables stays as it was
    pub link-entry :
        (p : List ℕ) (j : ℕ)
        → length p ≡ 3
        → Inside h root Top p
        → j < 512
        → entry_at h root Top w' p j ≡ entry_at h root Top w p j
    link-entry p j len v index = elim (Option-cases (table_at h root Top w p)) [
      | inl (t, e) ↦
          let f = tree.frame p t (omega arith) v e in
          let kept = link-kept p t (omega arith) v e in
          rw (e, kept) (same t j f.0 (ne_new p t (omega arith) v e) index (inl (off p t len v e)))
      | inr e ↦ elim (Option-cases (table_at h root Top w' p)) [
        | inl (t, e') ↦ elim (link-origin p t (omega arith) v e') [
          | inl old ↦ absurd (cc)
          | inr (path, new) ↦ rw (e, e', new) (empty j index)
        ]
        | inr e' ↦ rw (e, e') refl
      ]
    ]
