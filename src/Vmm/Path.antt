-- ===== src/Vmm/Path.antt =====
-- The path of an address through the tables of kernel/src/mem/vmm.c.
use dz_os.Prelude.{ℕ, zero, suc, ◌-◌, ◌≤◌, ◌≡◌, refl, ap, ◌∙◌, List, [], ◌∷◌, arith, length}
use dz_os.Vmm.Table.{pte_index}
use dz_os.Vmm.Tree.{Inside}

-- the path of an address `n` steps down from the root
unfoldable pub path : ℕ → ℕ → List ℕ
path va zero = []
path va (suc n) = pte_index va (3 - n) ∷ path va n

pub length-path : (va n : ℕ) → length (path va n) ≡ n
unfolding path
length-path va zero = refl
length-path va (suc n) = ap suc (length-path va n)

pub path-Inside :
    (Top : ℕ → Type 0) (h root va n : ℕ) → Top (pte_index va 3) → Inside h root Top (path va n)
unfolding path pte_index
path-Inside Top h root va zero top = tt
path-Inside Top h root va (suc zero) top = (omega arith, top)
path-Inside Top h root va (suc (suc n)) top = (omega arith, path-Inside Top h root va (suc n) top)

-- one step further down a path
pub path_step :
    (va level : ℕ)
    → suc level ≤ 3
    → path va (3 - level) ≡ pte_index va (suc level) ∷ path va (3 - suc level)
unfolding path
path_step va level low =
    let n : 3 - level ≡ suc (3 - suc level) = omega arith in
    let index : 3 - (3 - suc level) ≡ suc level = omega arith in
    ap (path va) n ∙ ap (λ k. pte_index va k ∷ path va (3 - suc level)) index
