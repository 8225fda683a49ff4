-- ===== src/Vmm/Pages.antt =====
-- vmm_map_pages, vmm_map_kernel_pages and vmm_walkaddr of kernel/src/mem/vmm.c as a map from pages to entries.
use dz_os.Prelude.{
  ℕ, ◌+◌, ◌-◌, ◌*◌, ◌/◌, ◌%◌, ◌^◌, ◌≤◌, ◌<◌, ◌≡◌, refl, sym, ap, subst, ◌∙◌, Bool, true, false, not,
  ◌&&◌, ◌||◌, some, arith, ◌==◌, if◌then◌else◌,
}
use dz_os.Mem.State.{page_size}
use dz_os.Vmm.Table.{
  pte_addr, pte_is_present, pte_is_user, pte_is_writable, pte_index, userspace_va_max,
  userspace_va_min, PtePermissions, frame_pte, when, FrameAllocator, Vm,
}
use dz_os.Vmm.Walk.{entry_address, vmm_walkaddr}
use dz_os.Vmm.Map.{aligned, map_page, vmm_map_pages, map_kernel_page, vmm_map_kernel_pages}
use dz_os.Vmm.Entries.{IsFrameAllocator}
use dz_os.Vmm.Look.{walkaddr_lem}
use dz_os.Vmm.Placed.{translation, Good}
use dz_os.Vmm.Mapped.{
  nth_page, Maps, Range, map_each-Maps, Exactly, map_page-One, map_kernel_page-One,
}

-- the entries of the root that user space and the kernel's half have
abbrev pub UserHalf : ℕ → Type 0
UserHalf i = i < 128

abbrev pub KernelHalf : ℕ → Type 0
KernelHalf i = 256 ≤ i

abbrev pub user_matches : Bool → Bool → Bool
user_matches true b = b
user_matches false b = not b

-- the fields of an entry made of a frame and three flags
flag_bits :
    (w x u : Bool) (pa : ℕ)
    → pa % page_size ≡ 0
    → pa < 2 ^ 52
    → let e = 1 + pte_addr pa + when w 2 + when x (2 ^ 63) + when u 4 in
      (pte_is_present e ≡ true) × (pte_is_user e ≡ u) × (pte_is_writable e ≡ w) × (pte_addr e ≡ pa)
unfolding pte_addr pte_is_present pte_is_user pte_is_writable
flag_bits true true true pa al small = (ground arith, ground arith, ground arith, omega arith)
flag_bits true true false pa al small = (ground arith, ground arith, ground arith, omega arith)
flag_bits true false true pa al small = (ground arith, ground arith, ground arith, omega arith)
flag_bits true false false pa al small = (ground arith, ground arith, ground arith, omega arith)
flag_bits false true true pa al small = (ground arith, ground arith, ground arith, omega arith)
flag_bits false true false pa al small = (ground arith, ground arith, ground arith, omega arith)
flag_bits false false true pa al small = (ground arith, ground arith, ground arith, omega arith)
flag_bits false false false pa al small = (ground arith, ground arith, ground arith, omega arith)

pub frame_pte-bits :
    (pa : ℕ) (perm : PtePermissions)
    → pa % page_size ≡ 0
    → pa < 2 ^ 52
    → let e = frame_pte pa perm in
      (pte_is_present e ≡ true)
      × (pte_is_user e ≡ perm.userspace)
      × (pte_is_writable e ≡ perm.writable)
      × (pte_addr e ≡ pa)
unfolding frame_pte
frame_pte-bits pa perm al small =
    flag_bits perm.writable (not perm.executable) perm.userspace pa al small

entry_address_mode :
    (user mode : Bool) (e pa : ℕ)
    → pte_is_present e ≡ true
    → pte_is_user e ≡ mode
    → pte_addr e ≡ pa
    → entry_address user e ≡ (if user_matches user mode then pa else 0)
unfolding entry_address
entry_address_mode true true e pa p u a = rw (p, u, a) refl
entry_address_mode true false e pa p u a = rw (p, u) refl
entry_address_mode false true e pa p u a = rw (p, u) refl
entry_address_mode false false e pa p u a = rw (p, u, a) refl

translate-frame_pte :
    (user : Bool) (pa : ℕ) (perm : PtePermissions)
    → pa % page_size ≡ 0
    → pa < 2 ^ 52
    → entry_address user (frame_pte pa perm) ≡ (if user_matches user perm.userspace then pa else 0)
translate-frame_pte user pa perm al small =
    let bits = frame_pte-bits pa perm al small in
    entry_address_mode user perm.userspace (frame_pte pa perm) pa bits.0 bits.1 bits.3

module _ {P : Type 0} (fa : FrameAllocator P) (h root : ℕ) (Ok : (ℕ → ℕ) → P → Type 0)
    (Free : P → ℕ → Type 0) (laws : IsFrameAllocator fa h Ok Free) where
  user_page :
      (va n k : ℕ)
      → va + n * page_size ≤ userspace_va_max
      → k < n
      → nth_page va k ≡ va + k * page_size
  user_page va n k fits low = omega arith

  user-Range :
      (va n : ℕ)
      → va % page_size ≡ 0
      → va + n * page_size ≤ userspace_va_max
      → Range fa h root UserHalf Ok Free laws n va
  unfolding pte_index
  user-Range va n aligned fits = record {
    inside = λ k low. omega (arith, user_page va n k fits low);
    apart = λ j k lj lk ne e. ne (omega (arith, e));
  }

  -- On a tree of tables, over a page allocator that fulfils `IsFrameAllocator` (that of mem.c does) and is
  -- in order, with a range of 1 to 2 ^ 52 - 1 whole pages, aligned and in user space: `vmm_map_pages` panics
  -- only if a page of the range is mapped already; it fails only in the state in which a call of the
  -- allocator has returned NULL; if it succeeds, every page of the range has the entry of its frame with the
  -- rights asked for. In both of these cases the tree and the allocator stay in order and the pages of user
  -- space outside the range keep their translation.
  pub map_pages-Maps :
      (va n pa : ℕ) (perm : PtePermissions) (v : Vm P)
      → Good fa h root UserHalf Ok Free laws v
      → 0 < n
      → n < 2 ^ 52
      → va % page_size ≡ 0
      → pa % page_size ≡ 0
      → userspace_va_min ≤ va
      → va + n * page_size ≤ userspace_va_max
      → pa < 2 ^ 64
      → Maps fa h root UserHalf Ok Free laws
          (Exactly fa h root UserHalf Ok Free laws (λ x. frame_pte x perm))
          n
          va
          pa
          v
          (vmm_map_pages fa root va (n * page_size) pa perm v)
  unfolding vmm_map_pages
  map_pages-Maps va n pa perm v good some_pages few va_ok pa_ok low high wp =
      let checks : (not (aligned pa && aligned va && aligned (n * page_size)) || n * page_size == 0)
          ≡ false =
        ground arith in
      let pages : n * page_size / page_size ≡ n = omega arith in
      rw (checks, pages)
        (map_each-Maps fa h root UserHalf Ok Free laws (map_page fa root perm)
          (Exactly fa h root UserHalf Ok Free laws (λ x. frame_pte x perm)) n va pa v (omega arith)
          wp (λ x. (userspace_va_min ≤ x) × (x < userspace_va_max))
          (λ k lk.
            (omega (arith, user_page va n k high lk), omega (arith, user_page va n k high lk)))
          (λ x pb u g top ok wpb.
            map_page-One fa h root UserHalf Ok Free laws perm x pb u g top ok.0 ok.1)
          good (user-Range va n va_ok high))

  kernel-Range :
      (va n : ℕ)
      → va % page_size ≡ 0
      → 2 ^ 64 - 2 ^ 47 ≤ va
      → va + n * page_size ≤ 2 ^ 64
      → Range fa h root KernelHalf Ok Free laws n va
  unfolding pte_index
  kernel-Range va n aligned low fits = record {
    inside =
        λ k lk. let page : nth_page va k ≡ va + k * page_size = omega arith in omega (arith, page);
    apart = λ j k lj lk ne e. ne (omega (arith, e));
  }

  -- The same for `vmm_map_kernel_pages` on a range of the kernel's half: the entries have no user bit, and
  -- the pages of the kernel's half outside the range keep their translation.
  pub map_kernel_pages-Maps :
      (va n pa : ℕ) (perm : PtePermissions) (v : Vm P)
      → Good fa h root KernelHalf Ok Free laws v
      → n < 2 ^ 52
      → va % page_size ≡ 0
      → pa % page_size ≡ 0
      → 2 ^ 64 - 2 ^ 47 ≤ va
      → va + n * page_size ≤ 2 ^ 64
      → pa < 2 ^ 64
      → va < 2 ^ 64
      → Maps fa h root KernelHalf Ok Free laws
          (Exactly fa h root KernelHalf Ok Free laws
            (λ x. frame_pte x (record perm { userspace = false })))
          n
          va
          pa
          v
          (vmm_map_kernel_pages fa root va pa (n * page_size) perm v)
  unfolding vmm_map_kernel_pages
  map_kernel_pages-Maps va n pa perm v good few va_ok pa_ok low high wp wa =
      let checks : not (aligned va && aligned pa && aligned (n * page_size)) ≡ false =
        ground arith in
      let pages : n * page_size / page_size ≡ n = omega arith in
      rw (checks, pages)
        (map_each-Maps fa h root KernelHalf Ok Free laws (map_kernel_page fa root perm)
          (Exactly fa h root KernelHalf Ok Free laws
            (λ x. frame_pte x (record perm { userspace = false })))
          n va pa v wa wp (λ x. 2 ^ 47 ≤ x)
          (λ k lk.
            let page : nth_page va k ≡ va + k * page_size = omega arith in omega (arith, page))
          (λ x pb u g top ok wpb.
            map_kernel_page-One fa h root KernelHalf Ok Free laws perm x pb u g top (omega arith))
          good (kernel-Range va n va_ok low high))

  -- On a tree of tables, over a page allocator that fulfils `IsFrameAllocator` (that of mem.c does) and is
  -- in order: a range of fewer than 2 ^ 52 pages, aligned and in user space, that `vmm_map_pages` has mapped
  -- to frames below 2 ^ 52 is translated page by page to them by `vmm_walkaddr`, when the mode asked for is
  -- the one it was mapped for; in the other mode the result is 0.
  pub walkaddr-map_pages :
      (va n pa k : ℕ) (perm : PtePermissions) (user : Bool) (v v' : Vm P)
      → Good fa h root UserHalf Ok Free laws v
      → n < 2 ^ 52
      → va % page_size ≡ 0
      → pa % page_size ≡ 0
      → userspace_va_min ≤ va
      → va + n * page_size ≤ userspace_va_max
      → pa + n * page_size ≤ 2 ^ 52
      → k < n
      → vmm_map_pages fa root va (n * page_size) pa perm v ≡ some (true, v')
      → vmm_walkaddr fa root (va + k * page_size) user v'
        ≡ some (if user_matches user perm.userspace then pa + k * page_size else 0, v')
  unfolding pte_index
  walkaddr-map_pages va n pa k perm user v v' good few va_ok pa_ok low high frames lk mapped =
      let maps =
        subst
          (Maps fa h root UserHalf Ok Free laws
            (Exactly fa h root UserHalf Ok Free laws (λ x. frame_pte x perm)) n va pa v)
          mapped
          (map_pages-Maps va n pa perm v good (omega arith) few va_ok pa_ok low high
            (omega arith)) in
      let e = (maps.here refl k lk).0 in
      let page : nth_page va k ≡ va + k * page_size = omega arith in
      let frame : nth_page pa k ≡ pa + k * page_size = omega arith in
      walkaddr_lem fa h root UserHalf (Free v'.pages) v' maps.good.1 maps.good.0
        (va + k * page_size) user (omega arith) (omega arith) (omega arith)
      ∙ ap (λ x. some (x, v'))
          (ap (λ x. entry_address user (translation fa h root UserHalf Ok Free laws v' x))
              (sym page)
            ∙ ap (entry_address user) e
            ∙ ap (λ x. entry_address user (frame_pte x perm)) frame
            ∙ translate-frame_pte user (pa + k * page_size) perm (omega arith) (omega arith))
