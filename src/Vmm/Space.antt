-- ===== src/Vmm/Space.antt =====
-- Whole address spaces in kernel/src/mem/vmm.c: the copy of the kernel's page table, a program's page table
-- and its release. `none` is a panic.
use dz_os.Prelude.{
  ℕ, zero, suc, ◌+◌, ◌-◌, ◌*◌, ◌/◌, ◌%◌, ◌^◌, Bool, true, false, not, ◌&&◌, ◌||◌, Option, some, ltb,
  leb, ◌==◌, if◌then◌else◌, u64, ◌>>=◌,
}
use Prim.Native.Nat.{bit_or}
use dz_os.Mem.State.{page_size}
use dz_os.Vmm.Table.{
  pte_addr, pte_is_present, pte_is_huge, pte_is_user, pte_is_writable, pte_is_no_execute, when,
  PtePermissions, userspace_va_max, userspace_va_min, FrameAllocator, Vm, p2v, v2p, read_pte,
  write_pte, fill_bytes, allocated, freed,
}
use dz_os.Vmm.Map.{vmm_map_pages, kernel_data}

-- `phys_addr_valid`
abbrev pub phys_addr_valid : {P : Type 0} → ℕ → Vm P → Bool
phys_addr_valid pa v = ltb pa v.phys_max_end && pa % page_size == 0

-- `memcpy(dst, src, PAGE_SIZE)`
unfoldable pub copy_page : {P : Type 0} → ℕ → ℕ → Vm P → Vm P
copy_page dst src v = record v {
  memory =
      λ a. if leb dst a && ltb a (dst + page_size) then v.memory (a + src - dst) else v.memory a;
}

-- the entry of a copied table: its address with the rights of the original
unfoldable pub copied_pte : ℕ → ℕ → ℕ
copied_pte pa e =
    1
    + pte_addr pa
    + when (pte_is_writable e) 2
    + when (pte_is_user e) 4
    + when (pte_is_no_execute e) (2 ^ 63)

-- the flags and sizes of vmm.h
abbrev pub stack_size : ℕ
stack_size = 0x8000

abbrev pub user_stack_bottom : ℕ
user_stack_bottom = userspace_va_max - stack_size

abbrev pub intstack_bottom : ℕ
intstack_bottom = user_stack_bottom - page_size - stack_size

abbrev pub syscallstack_bottom : ℕ
syscallstack_bottom = intstack_bottom - page_size - stack_size

abbrev pub user_data : PtePermissions
user_data = record { writable = true; executable = false; userspace = true }

-- whether the range of an entry has nothing of user space: `|` joins the index to the address
unfoldable pub outside_user : ℕ → ℕ → ℕ → Bool
outside_user initial_va level i =
    let low = bit_or initial_va (u64 (i * 2 ^ (level * 9 + 12))) in
    let high = bit_or initial_va (u64 (suc i * 2 ^ (level * 9 + 12))) in
    (leb userspace_va_max high && leb userspace_va_max low)
    || (ltb high userspace_va_min && ltb low userspace_va_min)

module _ {P : Type 0} (fa : FrameAllocator P) where
  -- The entry `at` of the copy, of a source entry `e`, with `copy` for the tables a level lower.
  unfoldable pub copy_entry :
      (ℕ → ℕ → Vm P → Option (Bool × Vm P)) → ℕ → ℕ → Vm P → Option (Bool × Vm P)
  copy_entry copy at e v =
      let r = allocated (fa.kalloc v.memory v.pages) v in
      let inner = copy r.0 (p2v r.1 (pte_addr e)) (fill_bytes r.0 0 page_size r.1) >>= λ c.
      elim c.0 [
        | true ↦ some (true, write_pte at (copied_pte (v2p c.1 r.0) e) c.1)
        | false ↦ freed (fa.kfree r.0 (c.1).memory (c.1).pages) c.1 >>= λ v'. some (false, v')
      ] in
      if not (pte_is_present e) || pte_is_huge e
      then some (true, v)
      else if r.0 == 0
      then some (false, r.1)
      else inner

  -- the last `n` entries of a table
  unfoldable pub copy_entries :
      (ℕ → ℕ → Vm P → Option (Bool × Vm P)) → ℕ → ℕ → ℕ → Vm P → Option (Bool × Vm P)
  copy_entries copy dst src zero v = some (true, v)
  copy_entries copy dst src (suc n) v =
      let i = 512 - suc n in
      copy_entry copy (dst + 8 * i) (read_pte v (src + 8 * i)) v >>= λ r. elim r.0 [
        | true ↦ copy_entries copy dst src n r.1
        | false ↦ some r
      ]

  unfoldable pub copy_pagetable : ℕ → ℕ → ℕ → Vm P → Option (Bool × Vm P)
  copy_pagetable zero dst src v = some (true, copy_page dst src v)
  copy_pagetable (suc level) dst src v =
      copy_entries (copy_pagetable level) dst src 512 (copy_page dst src v)

  -- the pages of a stack given back, if it was allocated
  unfoldable pub free_stack : ℕ → Vm P → Option (Vm P)
  free_stack stack v =
      if stack == 0
      then some v
      else freed (fa.kfree_pages stack (stack_size / page_size) v.memory v.pages) v

  unfoldable pub failed : ℕ → ℕ → ℕ → Vm P → Option (ℕ × Vm P)
  failed user_stack int_stack syscall_stack v =
      free_stack user_stack v >>= free_stack int_stack >>= free_stack syscall_stack >>= λ v'.
      some (0, v')

  unfoldable pub alloc_stack : Vm P → ℕ × Vm P
  alloc_stack v = allocated (fa.kalloc_pages (stack_size / page_size) v.memory v.pages) v

  -- the three stacks mapped; what the calls return is not looked at
  unfoldable pub map_stacks : ℕ → ℕ → ℕ → ℕ → Vm P → Option (ℕ × Vm P)
  map_stacks pagetable user_stack int_stack syscall_stack v =
      vmm_map_pages fa pagetable user_stack_bottom stack_size (v2p v user_stack) user_data v
      >>= λ a.
          vmm_map_pages fa pagetable intstack_bottom stack_size (v2p v int_stack) kernel_data a.1
          >>= λ b.
              vmm_map_pages fa pagetable syscallstack_bottom stack_size (v2p v syscall_stack)
                kernel_data b.1
              >>= λ c. some (pagetable, c.1)

  unfoldable pub new_stacks : ℕ → Vm P → Option (ℕ × Vm P)
  new_stacks pagetable v =
      let u = alloc_stack v in
      let i = alloc_stack u.1 in
      let s = alloc_stack i.1 in
      if u.0 == 0
      then failed 0 0 0 u.1
      else if i.0 == 0
      then failed u.0 0 0 i.1
      else if s.0 == 0
      then failed u.0 i.0 0 s.1
      else map_stacks pagetable u.0 i.0 s.0 s.1

  -- The page table, or 0.
  unfoldable pub vmm_user_pagetable_new : Vm P → Option (ℕ × Vm P)
  vmm_user_pagetable_new v =
      let r = allocated (fa.kcalloc v.memory v.pages) v in
      if r.0 == 0
      then some (0, r.1)
      else (copy_pagetable 3 r.0 (r.1).kernel_pagetable (fill_bytes r.0 0 page_size r.1) >>= λ c.
          elim c.0 [ true ↦ new_stacks r.0 c.1 | false ↦ some (0, c.1) ])

  -- a frame given back, if it is one
  unfoldable pub free_frame : ℕ → Vm P → Option (Vm P)
  free_frame pa v =
      if phys_addr_valid pa v then freed (fa.kfree (p2v v pa) v.memory v.pages) v else some v

  unfoldable pub free_leaf : ℕ → Vm P → Option (Vm P)
  free_leaf at v =
      let e = read_pte v at in
      if not (pte_is_present e)
      then some v
      else (free_frame (pte_addr e) v >>= λ v'. some (write_pte at 0 v'))

  unfoldable pub free_leaves : ℕ → ℕ → Vm P → Option (Vm P)
  free_leaves table zero v = some v
  free_leaves table (suc n) v = free_leaf (table + 8 * (512 - suc n)) v >>= free_leaves table n

  -- an entry of a level above the last, with `free` for the tables a level lower
  unfoldable pub free_entry : (ℕ → ℕ → Vm P → Option (Vm P)) → ℕ → ℕ → ℕ → ℕ → Vm P → Option (Vm P)
  free_entry free table initial_va level i v =
      let at = table + 8 * i in
      let e = read_pte v at in
      let low = bit_or initial_va (u64 (i * 2 ^ (level * 9 + 12))) in
      if not (pte_is_present e)
      then some v
      else if outside_user initial_va level i || pte_is_huge e
      then some v
      else if not (phys_addr_valid (pte_addr e) v)
      then some (write_pte at 0 v)
      else (free (p2v v (pte_addr e)) low v >>= λ v'. some (write_pte at 0 v'))

  unfoldable pub free_entries :
      (ℕ → ℕ → Vm P → Option (Vm P)) → ℕ → ℕ → ℕ → ℕ → Vm P → Option (Vm P)
  free_entries free table initial_va level zero v = some v
  free_entries free table initial_va level (suc n) v =
      free_entry free table initial_va level (512 - suc n) v
      >>= free_entries free table initial_va level n

  unfoldable pub vmm_user_pagetable_free_recursive : ℕ → ℕ → ℕ → Vm P → Option (Vm P)
  vmm_user_pagetable_free_recursive zero table initial_va v =
      free_leaves table 512 v >>= λ v'. freed (fa.kfree table v'.memory v'.pages) v'
  vmm_user_pagetable_free_recursive (suc level) table initial_va v =
      free_entries (vmm_user_pagetable_free_recursive level) table initial_va (suc level) 512 v
      >>= λ v'. freed (fa.kfree table v'.memory v'.pages) v'

  unfoldable pub vmm_user_pagetable_free : ℕ → Vm P → Option (Vm P)
  vmm_user_pagetable_free pagetable v = vmm_user_pagetable_free_recursive 3 pagetable 0 v
