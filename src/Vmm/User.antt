-- ===== src/Vmm/User.antt =====
-- What kernel/src/mem/vmm.c does with the memory of a program: copies into it, sbrk, and the checks of
-- pointers and strings that a program hands over.
use dz_os.Prelude.{
  ℕ, zero, suc, ◌+◌, ◌-◌, ◌/◌, ◌%◌, ◌^◌, Bool, true, false, not, ◌&&◌, ◌||◌, Option, none, some,
  List, [], ◌∷◌, ltb, leb, ◌==◌, if◌then◌else◌, u8, u64, ◌>>=◌, update, length, take, drop,
}
use dz_os.Mem.State.{page_size, page_mask, page_round_up}
use dz_os.Vmm.Table.{
  pte_addr, pte_is_present, pte_is_user, pte_is_writable, PtePermissions, userspace_va_max,
  userspace_va_min, FrameAllocator, Vm, p2v, read_pte, write_pte, freed,
}
use dz_os.Vmm.Walk.{walk, found_pte, vmm_walkaddr}
use dz_os.Vmm.Map.{vmm_allocate}

-- `memmove` of these bytes
unfoldable pub copied_bytes : ℕ → List ℕ → (ℕ → ℕ) → ℕ → ℕ
copied_bytes at [] m = m
copied_bytes at (b ∷ bs) m = copied_bytes (u64 (at + 1)) bs (update m at (u8 b))

-- a subtraction of 64-bit words
abbrev pub sub64 : ℕ → ℕ → ℕ
sub64 a b = (a + 2 ^ 64 - b) % 2 ^ 64

-- whether the entry allows a copy to the page
unfoldable pub copies_to : Bool → ℕ → Bool
copies_to userspace e =
    pte_is_present e
    && (if userspace then pte_is_user e else not (pte_is_user e))
    && pte_is_writable e

-- `PAGE_SIZE - (destination - va0)`, at most the bytes left
unfoldable pub chunk : ℕ → ℕ → ℕ → ℕ
chunk destination va0 len =
    let n = sub64 page_size (sub64 destination va0) in if ltb len n then len else n

unfoldable pub heap_pages : PtePermissions
heap_pages = record { writable = true; executable = false; userspace = true }

unfoldable pub zeros : ℕ → List ℕ
zeros zero = []
zeros (suc n) = 0 ∷ zeros n

-- whether a page may be read, or written if `writable`
unfoldable pub allows : Bool → ℕ → Bool
allows writable e =
    pte_is_present e && pte_is_user e && (if writable then pte_is_writable e else true)

-- A round of the copy with the bytes left, given the entry of the page `va0`.
unfoldable pub copy_chunk : {P : Type 0} → ℕ → ℕ → List ℕ → ℕ → Vm P → Vm P
copy_chunk destination va0 source e v =
    let n = chunk destination va0 (length source) in
    let at = u64 (p2v v (pte_addr e) + sub64 destination va0) in
    record v { memory = copied_bytes at (take n source) v.memory }

-- What a copy of a string returns, the bytes copied or -1, with the bytes of `kernel_buf` by index.
abbrev pub StringCopy : Type 0
StringCopy = Option ℕ × (ℕ → ℕ)

-- A byte of the string, at an address that was found: stored, and the end if it is 0, else `rest`.
unfoldable pub copy_byte :
    (ℕ → ℕ) → ℕ → Option ℕ → (ℕ → ℕ) → ((ℕ → ℕ) → Option StringCopy) → Option StringCopy
copy_byte memory copied none buf rest = some (none, buf)
copy_byte memory copied (some p) buf rest =
    let stored = update buf copied (memory p) in
    if memory p == 0 then some (some copied, stored) else rest stored

module _ {P : Type 0} (fa : FrameAllocator P) where
  -- The loop on fuel: `none` is a panic or fuel run out, and else whether all was copied.
  unfoldable pub memcpy_from : ℕ → ℕ → ℕ → List ℕ → Bool → Vm P → Option (Bool × Vm P)
  memcpy_from fuel pagetable destination [] userspace v = some (true, v)
  memcpy_from zero pagetable destination (b ∷ bs) userspace v = none
  memcpy_from (suc fuel) pagetable destination (b ∷ bs) userspace v =
      let va0 = page_mask destination in
      let later = walk fa pagetable va0 false false v >>= λ r.
      let e = found_pte r.1 r.0 in
      elim (copies_to userspace e) [
        | true ↦
            memcpy_from fuel pagetable (u64 (va0 + page_size))
              (drop (chunk destination va0 (length (b ∷ bs))) (b ∷ bs)) userspace
              (copy_chunk destination va0 (b ∷ bs) e r.1)
        | false ↦ some (false, r.1)
      ] in
      if leb userspace_va_max va0 || ltb va0 userspace_va_min then some (false, v) else later

  -- A round copies at least a byte.
  unfoldable pub vmm_memcpy : ℕ → ℕ → List ℕ → Bool → Vm P → Option (Bool × Vm P)
  vmm_memcpy pagetable destination source userspace v =
      memcpy_from (length source) pagetable destination source userspace v

  -- The loop of `vmm_zero`, at most one page a round.
  unfoldable pub zero_from : ℕ → ℕ → ℕ → ℕ → Vm P → Option (Bool × Vm P)
  zero_from zero pagetable vaddr end v = none
  zero_from (suc fuel) pagetable vaddr end v =
      let to_write = if ltb page_size (end - vaddr) then page_size else end - vaddr in
      let later = vmm_memcpy pagetable vaddr (zeros to_write) true v >>= λ r. elim r.0 [
        | true ↦ zero_from fuel pagetable (u64 (vaddr + to_write)) end r.1
        | false ↦ some r
      ] in
      if ltb vaddr end then later else some (true, v)

  unfoldable pub vmm_zero : ℕ → ℕ → ℕ → Vm P → Option (Bool × Vm P)
  vmm_zero pagetable vaddr len v =
      zero_from (suc (suc (len / page_size))) pagetable vaddr (u64 (vaddr + len)) v

  -- The loop that maps the pages below the new break; a failed allocation is a panic.
  unfoldable pub sbrk_up : ℕ → ℕ → ℕ → ℕ → Vm P → Option (Vm P)
  sbrk_up zero pagetable at new_sbrk v = none
  sbrk_up (suc fuel) pagetable at new_sbrk v =
      let later = vmm_allocate fa pagetable at page_size heap_pages true v >>= λ r. elim r.0 [
        | true ↦ sbrk_up fuel pagetable (u64 (at + page_size)) new_sbrk r.1
        | false ↦ none
      ] in
      if ltb at new_sbrk then later else some v

  unfoldable pub vmm_user_sbrk_allocate : ℕ → ℕ → ℕ → Vm P → Option (ℕ × Vm P)
  vmm_user_sbrk_allocate pagetable old_sbrk delta v =
      let new_sbrk = u64 (old_sbrk + delta) in
      sbrk_up (suc (new_sbrk / page_size + 1)) pagetable (page_round_up old_sbrk) new_sbrk v
      >>= λ v'. some (new_sbrk, v')

  -- a page unmapped and its frame given back; a missing table is a panic
  unfoldable pub unmap_page : ℕ × Vm P → Option (Vm P)
  unmap_page (at, v) =
      let v' = write_pte at 0 v in
      if at == 0
      then none
      else freed (fa.kfree (p2v v (pte_addr (read_pte v at))) v'.memory v'.pages) v'

  unfoldable pub sbrk_down : ℕ → ℕ → ℕ → ℕ → Vm P → Option (Vm P)
  sbrk_down zero pagetable at new_sbrk v = none
  sbrk_down (suc fuel) pagetable at new_sbrk v =
      let later = walk fa pagetable at false false v >>= unmap_page >>= λ v'.
      sbrk_down fuel pagetable (sub64 at page_size) new_sbrk v' in
      if ltb new_sbrk at then later else some v

  unfoldable pub vmm_user_sbrk_deallocate : ℕ → ℕ → ℕ → Vm P → Option (ℕ × Vm P)
  vmm_user_sbrk_deallocate pagetable old_sbrk delta v =
      let new_sbrk = sub64 old_sbrk delta in
      sbrk_down (suc (page_mask old_sbrk / page_size + 1)) pagetable (page_mask old_sbrk) new_sbrk v
      >>= λ v'. some (new_sbrk, v')

  -- The loop over the pages from `va` up to `page_end`.
  unfoldable pub validate_from : ℕ → ℕ → ℕ → ℕ → Bool → Vm P → Option Bool
  validate_from zero pagetable va page_end writable v = none
  validate_from (suc fuel) pagetable va page_end writable v =
      let later = walk fa pagetable va false false v >>= λ r.
      elim (allows writable (found_pte r.1 r.0)) [
        | true ↦ validate_from fuel pagetable (u64 (va + page_size)) page_end writable v
        | false ↦ some false
      ] in
      if ltb va page_end then later else some true

  unfoldable pub vmm_validate_user_ptr : ℕ → ℕ → ℕ → Bool → Vm P → Option Bool
  vmm_validate_user_ptr pagetable start len writable v =
      let end = u64 (start + len) in
      if start == 0 || len == 0
      then some false
      else if ltb end start
      then some false
      else if leb userspace_va_max start || ltb userspace_va_max end
      then some false
      else if ltb start userspace_va_min
      then some false
      else validate_from (suc (page_round_up end / page_size)) pagetable (page_mask start)
          (page_round_up end) writable v

  -- the address of the string's next byte, checked; `some none` is the error
  unfoldable pub string_page : ℕ → ℕ → Vm P → Option (Option ℕ)
  string_page pagetable va v = walk fa pagetable (page_mask va) false false v >>= λ r.
      if allows false (found_pte r.1 r.0)
      then (vmm_walkaddr fa pagetable va true v >>= λ w.
          some (if w.0 == 0 then none else some (p2v v w.0)))
      else some none

  -- The loop with `n` bytes left to copy, and the terminator behind it.
  -- The source checks a page once; checking it for each of its bytes gives the same.
  unfoldable pub copy_string : ℕ → ℕ → ℕ → ℕ → (ℕ → ℕ) → Vm P → Option StringCopy
  copy_string pagetable user_addr copied zero buf v = some (none, update buf copied 0)
  copy_string pagetable user_addr copied (suc n) buf v =
      string_page pagetable (u64 (user_addr + copied)) v >>= λ at.
      copy_byte v.memory copied at buf (λ b. copy_string pagetable user_addr (suc copied) n b v)

  -- `kernel_buf` is an address of the kernel, which no page of the user maps, and its bytes.
  unfoldable pub vmm_copy_user_string : ℕ → ℕ → ℕ → ℕ → (ℕ → ℕ) → Vm P → Option StringCopy
  vmm_copy_user_string pagetable user_str kernel_buf max_len buf v =
      if user_str == 0
        || kernel_buf == 0
        || max_len == 0
        || leb userspace_va_max user_str
        || ltb user_str userspace_va_min
      then some (none, buf)
      else copy_string pagetable user_str 0 (max_len - 1) buf v
