-- ===== src/Mem/Single.antt =====
-- Allocation of single pages in kernel/src/mem/mem.c. Each allocator returns an address, 0 for
-- NULL, and the state. Its critical sections run without interruption, as the spinlocks make them.
use dz_os.Prelude.{ℕ, ◌+◌, List, [], ◌∷◌, Option, none, some, ltb, leb, ◌==◌, if◌then◌else◌, u64}
use dz_os.Mem.State.{Mem, Region, page_size, p2v, memset, pop_free_page}

-- `n` bytes less at the front of a region, which is unlinked when nothing is left
unfoldable pub carve : ℕ → Region → List Region → List Region
carve n r rs =
    if leb r.phys_end (u64 (r.phys_cur + n))
    then rs
    else record r { phys_cur = u64 (r.phys_cur + n) } ∷ rs

-- The walk over the regions: the first one with a page left gives it, and is unlinked when that was
-- its last.
unfoldable pub take_page : List Region → Option (ℕ × List Region)
unfolding carve
take_page [] = none
take_page (r ∷ rs) =
    let rest = take_page rs in
    if ltb r.phys_cur r.phys_end
    then some (r.phys_cur, carve page_size r rs)
    else elim rest [ none ↦ none | some (phys, rs') ↦ some (phys, r ∷ rs') ]

unfoldable pub alloc_from_regions_for_page_cache : Mem → ℕ × Mem
alloc_from_regions_for_page_cache m = elim (take_page m.regions) [
  | none ↦ (0, m)
  | some (phys, rs) ↦ (p2v m phys, record m { regions = rs })
]

-- what the three allocators do with a page of either source
abbrev pub fill_from_regions : ℕ → ℕ × Mem → ℕ × Mem
fill_from_regions b (p, m) = if p == 0 then (0, m) else (p, memset m p b 1)

unfoldable pub kalloc : Mem → ℕ × Mem
kalloc m =
    let (p, m') = pop_free_page m in
    if p == 0
    then fill_from_regions 2 (alloc_from_regions_for_page_cache m')
    else (p, memset m' p 0 1)

unfoldable pub kalloc_for_page_cache : Mem → ℕ × Mem
kalloc_for_page_cache m =
    let (p, m') = pop_free_page m in
    if p == 0 then alloc_from_regions_for_page_cache m' else (p, m')

unfoldable pub kcalloc : Mem → ℕ × Mem
kcalloc m =
    let (p, m') = pop_free_page m in
    if p == 0
    then fill_from_regions 0 (alloc_from_regions_for_page_cache m')
    else (p, memset m' p 0 1)
