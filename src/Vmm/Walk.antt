-- ===== src/Vmm/Walk.antt =====
-- The walk of a page table in kernel/src/mem/vmm.c: walk, walk_kernel and vmm_walkaddr.
use dz_os.Prelude.{
  ℕ, zero, suc, ◌+◌, Bool, false, not, ◌&&◌, ◌||◌, Option, none, some, ltb, leb, ◌==◌,
  if◌then◌else◌, ◌>>=◌,
}
use dz_os.Vmm.Table.{
  pte_addr, pte_is_present, pte_is_user, pte_at, userspace_va_max, userspace_va_min, kernel_va_min,
  FrameAllocator, Vm, p2v, v2p, read_pte, write_pte, fill_bytes, allocated,
}

-- `PTE_P | PTE_W | PTE_U` and `PTE_P | PTE_W`, the flags of a new table's entry
abbrev pub user_table : ℕ
user_table = 7

abbrev pub kernel_table : ℕ
kernel_table = 3

-- the entry at an address that a walk found, when it is not NULL
abbrev pub found_pte : {P : Type 0} → Vm P → ℕ → ℕ
found_pte v at = if at == 0 then 0 else read_pte v at

-- the frame that an entry leads to, if its mode is the one asked for
unfoldable pub entry_address : Bool → ℕ → ℕ
entry_address user e =
    if not (pte_is_present e)
    then 0
    else if (if pte_is_user e then user else not user)
    then pte_addr e
    else 0

module _ {P : Type 0} (fa : FrameAllocator P) where
  -- a page just allocated, zeroed and linked at `at`; `none` is NULL
  unfoldable pub link_table : ℕ → ℕ → ℕ × Vm P → Option ℕ × Vm P
  link_table flags at r =
      if r.0 == 0
      then (none, r.1)
      else (some r.0, write_pte at (flags + pte_addr (v2p r.1 r.0)) (fill_bytes r.0 0 4096 r.1))

  -- the table that an entry leads to
  unfoldable pub next_table : ℕ → Bool → ℕ → Vm P → Option ℕ × Vm P
  next_table flags alloc at v =
      if pte_is_present (read_pte v at)
      then (some (p2v v (pte_addr (read_pte v at))), v)
      else if not alloc
      then (none, v)
      else link_table flags at (allocated (fa.kalloc v.memory v.pages) v)

  -- The loop over the levels from `level` down to 1, then the address of the last entry; 0 is NULL.
  unfoldable pub walk_levels : ℕ → Bool → ℕ → ℕ → ℕ → Vm P → ℕ × Vm P
  walk_levels flags alloc va table zero v = (pte_at table va 0, v)
  walk_levels flags alloc va table (suc level) v =
      let (table', v') = next_table flags alloc (pte_at table va (suc level)) v in
      elim table' [ none ↦ (0, v') | some t ↦ walk_levels flags alloc va t level v' ]

  -- `none` is a panic.
  unfoldable pub walk : ℕ → ℕ → Bool → Bool → Vm P → Option (ℕ × Vm P)
  walk pagetable va alloc io v =
      if (not io && leb userspace_va_max va) || ltb va userspace_va_min
      then none
      else some (walk_levels user_table alloc va pagetable 3 v)

  unfoldable pub walk_kernel : ℕ → ℕ → Bool → Vm P → Option (ℕ × Vm P)
  walk_kernel pagetable va alloc v =
      if ltb va kernel_va_min then none else some (walk_levels kernel_table alloc va pagetable 3 v)

  unfoldable pub vmm_walkaddr : ℕ → ℕ → Bool → Vm P → Option (ℕ × Vm P)
  vmm_walkaddr pagetable va user v =
      if leb userspace_va_max va
      then some (0, v)
      else (walk pagetable va false false v >>= λ r.
          some (entry_address user (found_pte r.1 r.0), r.1))
