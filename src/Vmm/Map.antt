-- ===== src/Vmm/Map.antt =====
-- The mapping of pages in kernel/src/mem/vmm.c: vmm_map_kernel_pages, vmm_map_pages, vmm_allocate,
-- vmm_io_memmap and vmm_map_physical. A result is `none` for a panic, and else whether the call succeeded.
use dz_os.Prelude.{
  ℕ, zero, suc, ◌+◌, ◌-◌, ◌/◌, ◌%◌, ◌^◌, Bool, true, false, not, ◌&&◌, ◌||◌, Option, none, some,
  leb, ◌==◌, if◌then◌else◌, u64, ◌>>=◌,
}
use dz_os.Mem.State.{page_size, page_mask}
use dz_os.Vmm.Table.{
  pte_addr, pte_is_present, PtePermissions, frame_pte, FrameAllocator, Vm, p2v, v2p, read_pte,
  write_pte, allocated, freed,
}
use dz_os.Vmm.Walk.{walk, walk_kernel}

abbrev pub aligned : ℕ → Bool
aligned n = n % page_size == 0

-- The loop over `n` pages, each set up by `place`; a round that fails ends it.
unfoldable pub map_each :
    {S : Type 0} → (ℕ → ℕ → S → Option (Bool × S)) → ℕ → ℕ → ℕ → S → Option (Bool × S)
map_each place zero va pa v = some (true, v)
map_each place (suc n) va pa v = place va pa v >>= λ r. elim r.0 [
  | true ↦ map_each place n (u64 (va + page_size)) (u64 (pa + page_size)) r.1
  | false ↦ some r
]

-- The entry written where the walk arrived: false for a NULL, a panic if the page is mapped already.
unfoldable pub place_pte : {P : Type 0} → ℕ → ℕ × Vm P → Option (Bool × Vm P)
place_pte e (at, v) =
    if at == 0
    then some (false, v)
    else if pte_is_present (read_pte v at)
    then none
    else some (true, write_pte at e v)

abbrev pub kernel_data : PtePermissions
kernel_data = record { writable = true; executable = false; userspace = false }

-- `PTE_P | PTE_W | PTE_PWT | PTE_PCD | PTE_XD | PTE_SET_ADDR(pa)`
abbrev pub io_pte : ℕ → ℕ
io_pte pa = 27 + 2 ^ 63 + pte_addr pa

module _ {P : Type 0} (fa : FrameAllocator P) where
  unfoldable pub map_page : ℕ → PtePermissions → ℕ → ℕ → Vm P → Option (Bool × Vm P)
  map_page pagetable perm va pa v =
      walk fa pagetable va true false v >>= place_pte (frame_pte pa perm)

  unfoldable pub vmm_map_pages : ℕ → ℕ → ℕ → ℕ → PtePermissions → Vm P → Option (Bool × Vm P)
  vmm_map_pages pagetable va size pa perm v =
      if not (aligned pa && aligned va && aligned size) || size == 0
      then none
      else map_each (map_page pagetable perm) (size / page_size) va pa v

  unfoldable pub map_kernel_page : ℕ → PtePermissions → ℕ → ℕ → Vm P → Option (Bool × Vm P)
  map_kernel_page pagetable perm va pa v =
      walk_kernel fa pagetable va true v
      >>= place_pte (frame_pte pa (record perm { userspace = false }))

  unfoldable pub vmm_map_kernel_pages : ℕ → ℕ → ℕ → ℕ → PtePermissions → Vm P → Option (Bool × Vm P)
  vmm_map_kernel_pages pagetable va pa size perm v =
      if not (aligned va && aligned pa && aligned size)
      then none
      else map_each (map_kernel_page pagetable perm) (size / page_size) va pa v

  unfoldable pub vmm_init_lapic : ℕ → Vm P → Option (Bool × Vm P)
  vmm_init_lapic lapic_addr v =
      vmm_map_kernel_pages v.kernel_pagetable (p2v v lapic_addr) lapic_addr page_size kernel_data v

  -- the frame given back when the walk returns NULL
  unfoldable pub place_frame : PtePermissions → ℕ → ℕ × Vm P → Option (Bool × Vm P)
  place_frame perm frame (at, v) =
      if at == 0
      then (freed (fa.kfree frame v.memory v.pages) v >>= λ v'. some (false, v'))
      else place_pte (frame_pte (v2p v frame) perm) (at, v)

  -- a round of `vmm_allocate`; the loop has no physical address
  unfoldable pub allocate_page : ℕ → PtePermissions → Bool → ℕ → ℕ → Vm P → Option (Bool × Vm P)
  allocate_page pagetable perm clear va unused v =
      let r = allocated ((if clear then fa.kcalloc else fa.kalloc) v.memory v.pages) v in
      if r.0 == 0
      then some (false, r.1)
      else (walk fa pagetable va true false r.1 >>= place_frame perm r.0)

  unfoldable pub vmm_allocate : ℕ → ℕ → ℕ → PtePermissions → Bool → Vm P → Option (Bool × Vm P)
  vmm_allocate pagetable va size perm clear v =
      if not (aligned va && aligned size) || size == 0
      then none
      else map_each (allocate_page pagetable perm clear) (size / page_size) va 0 v

  unfoldable pub map_io_page : ℕ → ℕ → Vm P → Option (Bool × Vm P)
  map_io_page va pa v = walk fa v.kernel_pagetable va true true v >>= place_pte (io_pte pa)

  -- the address that the region is mapped at, or 0
  unfoldable pub vmm_io_memmap : ℕ → ℕ → Vm P → Option (ℕ × Vm P)
  vmm_io_memmap pa size v =
      let va = v.io_memmap_current_address in
      if not (aligned pa && aligned size) || size == 0
      then none
      else (map_each map_io_page (size / page_size) va pa
            (record v { io_memmap_current_address = u64 (va + size) })
          >>= λ r. some (if r.0 then va else 0, r.1))

  -- `phys & ~(PAGE_SIZE - 1)` and the size rounded up to pages: the masks have 32 bits
  unfoldable pub vmm_map_physical : ℕ → ℕ → Vm P → Option (ℕ × Vm P)
  vmm_map_physical phys_start phys_end v =
      let aligned_start = page_mask phys_start in
      let size = phys_end - aligned_start in
      let pages = if aligned size then size else page_mask (u64 (size + (page_size - 1))) in
      if leb phys_end phys_start
      then none
      else (vmm_io_memmap aligned_start pages v >>= λ r.
          some (u64 (r.0 + (phys_start - aligned_start)), r.1))
