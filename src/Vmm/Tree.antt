-- ===== src/Vmm/Tree.antt =====
-- A page table as a tree: the tables by the path of indices that leads to them from the root, the last step
-- first, over the entries `w t i` of all tables. No table is reached twice, so that a write to one entry
-- changes one translation.
use dz_os.Prelude.{
  ℕ, ◌+◌, ◌%◌, ◌^◌, ◌≤◌, ◌<◌, ◌≡◌, refl, ◌≢◌, ◌⊎◌, inl, inr, Option, none, some, List, [], ◌∷◌,
  if◌then◌else◌, u64, ◌>>=◌, length,
}
use dz_os.Vmm.Table.{pte_is_present, pte_addr}

-- the table that an entry leads to
unfoldable pub child : ℕ → ℕ → Option ℕ
child h e = if pte_is_present e then some (u64 (pte_addr e + h)) else none

-- an address that a page table can have: a page in the part of the direct map that an entry can name
pub record IsFrame (h t : ℕ) : Type 0 where
  pub ne_null : 0 < t
  pub above : h ≤ t
  pub near : t < h + 2 ^ 52
  pub aligned : t % 4096 ≡ 0
  pub word : t + 4096 ≤ 2 ^ 64

pub Option-cases : (r : Option ℕ) → ((t : ℕ) × (r ≡ some t)) ⊎ (r ≡ none)
Option-cases none = inr refl
Option-cases (some t) = inl (t, refl)

module _ (h root : ℕ) (Top : ℕ → Type 0) where
  unfoldable pub table_at : (ℕ → ℕ → ℕ) → List ℕ → Option ℕ
  table_at w [] = some root
  table_at w (i ∷ p) = table_at w p >>= λ t. child h (w t i)

  -- the entry of the table at a path, 0 when there is no table
  abbrev pub entry_of : (ℕ → ℕ → ℕ) → ℕ → Option ℕ → ℕ
  entry_of w i none = 0
  entry_of w i (some t) = w t i

  abbrev pub entry_at : (ℕ → ℕ → ℕ) → List ℕ → ℕ → ℕ
  entry_at w p i = entry_of w i (table_at w p)

  -- a path whose first step, the last of the list, is one of `Top`
  abbrev pub Inside : List ℕ → Type 0
  Inside [] = Unit
  Inside (i ∷ []) = (i < 512) × Top i
  Inside (i ∷ j ∷ p) = (i < 512) × Inside (j ∷ p)

  pub Inside-index : (i : ℕ) (p : List ℕ) → Inside (i ∷ p) → i < 512
  Inside-index i [] v = v.0
  Inside-index i (j ∷ p) v = v.0

  pub Inside-rest : (i : ℕ) (p : List ℕ) → Inside (i ∷ p) → Inside p
  Inside-rest i [] v = tt
  Inside-rest i (j ∷ p) v = v.1

  -- The tables are frames that are not free, and no two paths lead to one table.
  pub record IsTree (free : ℕ → Type 0) (w : ℕ → ℕ → ℕ) : Type 0 where
    pub frame :
        (p : List ℕ) (t : ℕ)
        → length p ≤ 3
        → Inside p
        → table_at w p ≡ some t
        → IsFrame h t × (free t → ⊥)
    pub distinct :
        (p q : List ℕ) (t : ℕ)
        → length p ≤ 3
        → length q ≤ 3
        → Inside p
        → Inside q
        → table_at w p ≡ some t
        → table_at w q ≡ some t
        → p ≡ q

  -- the entries agree on the frames, but for entry `i` of the table `a` and for the page `n`
  abbrev pub SameBut : ℕ → ℕ → ℕ → (ℕ → ℕ → ℕ) → (ℕ → ℕ → ℕ) → Type 0
  SameBut n a i w w' =
      (t j : ℕ) → IsFrame h t → t ≢ n → j < 512 → (t ≢ a) ⊎ (j ≢ i) → w' t j ≡ w t j

  -- inversion of a step
  pub step_inv :
      (w : ℕ → ℕ → ℕ) (i t : ℕ) (r : Option ℕ)
      → (r >>= λ s. child h (w s i)) ≡ some t
      → (s : ℕ) × (r ≡ some s) × (child h (w s i) ≡ some t)
  step_inv w i t none e = cc
  step_inv w i t (some s) e = (s, refl, e)

  pub table_at-inv :
      (w : ℕ → ℕ → ℕ) (i t : ℕ) (p : List ℕ)
      → table_at w (i ∷ p) ≡ some t
      → (s : ℕ) × (table_at w p ≡ some s) × (child h (w s i) ≡ some t)
  unfolding table_at
  table_at-inv w i t p e = step_inv w i t (table_at w p) e
