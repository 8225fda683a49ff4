-- ===== src/Vmm/Stack.antt =====
-- The kernel stacks of processes in kernel/src/mem/vmm.c, each with a guard page. `none` is a panic.
use dz_os.Prelude.{
  ℕ, zero, suc, ◌+◌, ◌*◌, true, false, not, Option, none, some, ◌==◌, if◌then◌else◌, u64, ◌>>=◌,
}
use dz_os.Mem.State.{page_size}
use dz_os.Vmm.Table.{
  pte_addr, pte_is_present, FrameAllocator, Vm, p2v, v2p, read_pte, write_pte, allocated, freed,
}
use dz_os.Vmm.Walk.{walk_kernel, found_pte}
use dz_os.Vmm.Map.{vmm_map_kernel_pages, kernel_data}

abbrev pub kernel_stack_base : ℕ
kernel_stack_base = 0xFFFF900000000000

-- the four pages of `KERNEL_STACK_SIZE`
abbrev pub kernel_stack_pages : ℕ
kernel_stack_pages = 4

abbrev pub kernel_stack_va : ℕ → ℕ
kernel_stack_va i = u64 (kernel_stack_base + u64 (i * (4 * 4096 + 4096)))

module _ {P : Type 0} (fa : FrameAllocator P) where
  -- the guard page: an entry with an address that is not present
  unfoldable pub map_guard : ℕ × Vm P → Option (Vm P)
  map_guard (at, v) =
      let r = allocated (fa.kalloc_for_page_cache v.memory v.pages) v in
      if at == 0
      then none
      else if r.0 == 0
      then none
      else some (write_pte at (pte_addr (v2p r.1 r.0)) r.1)

  -- the pages of the stack from `va` on; a failure is a panic
  unfoldable pub map_stack_pages : ℕ → ℕ → Vm P → Option (Vm P)
  map_stack_pages va zero v = some v
  map_stack_pages va (suc n) v =
      let r = allocated (fa.kalloc_for_page_cache v.memory v.pages) v in
      let mapped =
        vmm_map_kernel_pages fa (r.1).kernel_pagetable va (v2p r.1 r.0) page_size kernel_data r.1
        >>= λ c. elim c.0 [ true ↦ map_stack_pages (u64 (va + page_size)) n c.1 | false ↦ none ] in
      if r.0 == 0 then none else mapped

  -- the top of the stack of process slot `i`
  unfoldable pub vmm_allocate_proc_kernel_stack : ℕ → Vm P → Option (ℕ × Vm P)
  vmm_allocate_proc_kernel_stack i v =
      let stack_va = u64 (kernel_stack_va i + page_size) in
      walk_kernel fa v.kernel_pagetable (kernel_stack_va i) true v
      >>= map_guard
      >>= map_stack_pages stack_va kernel_stack_pages
      >>= λ v'. some (u64 (stack_va + kernel_stack_pages * page_size), v')

  -- an entry cleared and its frame given back
  unfoldable pub release_pte : ℕ → Vm P → Option (Vm P)
  release_pte at v =
      let v' = write_pte at 0 v in
      freed (fa.kfree (p2v v (pte_addr (read_pte v at))) v'.memory v'.pages) v'

  unfoldable pub free_guard : ℕ × Vm P → Option (Vm P)
  free_guard (at, v) = if at == 0 then some v else release_pte at v

  -- a page of the stack; a missing one is a panic
  unfoldable pub free_stack_page : ℕ × Vm P → Option (Vm P)
  free_stack_page (at, v) = if not (pte_is_present (found_pte v at)) then none else release_pte at v

  unfoldable pub free_stack_pages : ℕ → ℕ → Vm P → Option (Vm P)
  free_stack_pages va zero v = some v
  free_stack_pages va (suc n) v =
      walk_kernel fa v.kernel_pagetable va false v
      >>= free_stack_page
      >>= free_stack_pages (u64 (va + page_size)) n

  unfoldable pub vmm_free_proc_kernel_stack : ℕ → Vm P → Option (Vm P)
  vmm_free_proc_kernel_stack i v =
      walk_kernel fa v.kernel_pagetable (kernel_stack_va i) false v
      >>= free_guard
      >>= free_stack_pages (u64 (kernel_stack_va i + page_size)) kernel_stack_pages
