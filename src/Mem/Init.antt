-- ===== src/Mem/Init.antt =====
-- `append_region` and `init_mem` of kernel/src/mem/mem.c. The log lines, with the two totals that
-- only they print, and the locks are left out.
use dz_os.Prelude.{
  ℕ, ◌+◌, true, not, List, [], ◌∷◌, ◌++◌, Option, none, some, ltb, leb, ◌==◌, ◌&&◌, if◌then◌else◌,
  u64, ◌>>=◌,
}
use dz_os.Mem.State.{Mem, Region, page_size, static_region_pool_size, page_round_up, page_mask}
use dz_os.Mem.Single.{kalloc_for_page_cache}

-- `struct limine_memmap_entry`; the type LIMINE_MEMMAP_USABLE is 0.
pub record Entry : Type 0 where
  pub base : ℕ
  pub length : ℕ
  pub type : ℕ

abbrev pub limine_memmap_usable : ℕ
limine_memmap_usable = 0

abbrev region : ℕ → ℕ → Region
region s e = record { phys_cur = s; phys_end = e }

abbrev from_pool : ℕ → ℕ → Mem → Option Mem
from_pool s e m =
    if leb static_region_pool_size m.static_region_pool_idx
    then none
    else some (record m {
      static_region_pool_idx = m.static_region_pool_idx + 1;
      regions = m.regions ++ (region s e ∷ []);
    })

-- The node of a region comes from a free page if there is one, else from the static pool; `none` is
-- the failure -1.
unfoldable pub append_region : ℕ → ℕ → Mem → Option Mem
append_region s e m =
    if leb e s
    then some m
    else if m.mem_initialized && not (m.freepages == 0)
    then (let (p, m') = kalloc_for_page_cache m in
        if p == 0
        then from_pool s e m'
        else some (record m' { regions = m'.regions ++ (region s e ∷ []) }))
    else from_pool s e m

-- `phys_max_end` grows with every entry, whatever its type.
abbrev note_end : ℕ → Mem → Mem
note_end end m = record m { phys_max_end = if ltb m.phys_max_end end then end else m.phys_max_end }

-- One round of the loop over the memory map.
unfoldable pub add_entry : Option Entry → Mem → Option Mem
add_entry none m = some m
add_entry (some e) m =
    let m' = note_end (u64 (e.base + e.length)) m in
    if not (e.type == limine_memmap_usable)
    then some m'
    else if ltb e.length page_size
    then some m'
    else (let start = page_round_up e.base in
        let end = page_mask (u64 (e.base + e.length)) in
        if leb end start then some m' else append_region start end m')

unfoldable pub add_entries : List (Option Entry) → Mem → Option Mem
add_entries [] m = some m
add_entries (e ∷ es) m = add_entry e m >>= add_entries es

-- A second call only warns; no memory map is a panic.
unfoldable pub init_mem : ℕ → Option (List (Option Entry)) → Mem → Option Mem
init_mem hhdm map m = if m.mem_initialized then some m else elim map [
  | none ↦ none
  | some es ↦ add_entries es (record m { hhdm_offset = hhdm }) >>= λ m'.
      some (record m' { mem_initialized = true })
]
