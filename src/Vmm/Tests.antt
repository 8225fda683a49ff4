-- ===== src/Vmm/Tests.antt =====
-- Page tables in a small memory, and the theorems on them at concrete inputs.
use dz_os.Prelude.{
  update, ◌⊎◌, ltb, leb, if◌then◌else◌, ◌==◌, ◌≢◌, ℕ, ◌+◌, ◌*◌, ◌^◌, ◌≡◌, refl, sym, subst, ◌∙◌,
  inl, inr, Bool, true, false, ◌&&◌, Option, none, some, List, [], ◌∷◌, arith,
}
use dz_os.Dzfs.Block.{get_u32, put_u32}
use dz_os.Mem.State.{link, memset, next_of, pop_free_page}
use dz_os.Mem.Single.{kalloc, alloc_from_regions_for_page_cache, take_page, carve}
use dz_os.Vmm.Supply.{
  Stock, mem_allocator, supplied, refill, page_byte, IsFree, InOrder, mem-IsFrameAllocator,
}
use dz_os.Vmm.Table.{
  pte_addr, pte_is_present, pte_is_user, pte_index, PtePermissions, frame_pte, FrameAllocator, Vm,
  write_pte, fill_bytes, allocated,
}
use dz_os.Vmm.Walk.{link_table, next_table, walk_levels, walk, vmm_walkaddr}
use dz_os.Vmm.Map.{map_each, place_pte, map_page, vmm_map_pages}
use dz_os.Vmm.User.{allows, vmm_validate_user_ptr, vmm_copy_user_string}
use dz_os.Vmm.Tree.{IsFrame, child, table_at}
use dz_os.Vmm.Entries.{words, IsFrameAllocator}
use dz_os.Vmm.Path.{path}
use dz_os.Vmm.Placed.{Good}
use dz_os.Vmm.Mapped.{Maps, Exactly}
use dz_os.Vmm.Pages.{UserHalf, map_pages-Maps, walkaddr-map_pages}
use dz_os.Vmm.Checks.{BytesAllow, validate_user_ptr-BytesAllow}
use dz_os.Vmm.Faults.{validate_user_ptr_panics, copy_user_string-first_byte}

-- memory is mapped from 2 ^ 20 on
abbrev base : ℕ
base = 2 ^ 20

-- the calls for blocks of pages are not made here
abbrev no_blocks : FrameAllocator Stock
no_blocks = record {
  kalloc = λ m s. (0, m, s);
  kcalloc = λ m s. (0, m, s);
  kalloc_for_page_cache = λ m s. (0, m, s);
  kfree = λ p m s. none;
  kalloc_pages = λ n m s. (0, m, s);
  kfree_pages = λ p n m s. none;
}

abbrev allocator : FrameAllocator Stock
allocator = mem_allocator no_blocks

-- an empty free list, and a region of seven pages behind the first one
abbrev seven_pages : Stock
seven_pages = (
  record {
    hhdm_offset = base;
    phys_max_end = 2 ^ 30;
    freepages = 0;
    page = λ a. link 0;
    regions = record { phys_cur = 4096; phys_end = 8 * 4096 } ∷ [];
    mem_initialized = true;
    static_region_pool_idx = 1;
  },
  [],
)

laws : IsFrameAllocator allocator base (InOrder base) (IsFree base)
laws = mem-IsFrameAllocator base no_blocks refl

seven_pages-InOrder : InOrder base (λ x. 0) seven_pages
seven_pages-InOrder = record {
  hhdm = refl;
  valid = record {
    hhdm_pos = omega arith;
    hhdm_aligned = refl;
    hhdm_word = omega arith;
    chain = refl;
    pages = tt;
    regions = (
      record {
        nonempty = omega arith;
        cur_aligned = refl;
        end_aligned = refl;
        mapped = omega arith;
      },
      λ a i. refl,
      tt,
    );
  };
  near = λ a i. cc;
  near_regions = λ a i. (ground (arith, i), ground (arith, i));
}

-- the first page is the root of an empty page table
abbrev empty_vm : Vm Stock
empty_vm = record {
  memory = λ x. 0;
  pages = seven_pages;
  hhdm_offset = base;
  phys_max_end = 2 ^ 30;
  kernel_pagetable = base;
  io_memmap_current_address = 0;
}

empty_path :
    (Top : ℕ → Type 0) (i : ℕ) (p : List ℕ) → table_at base base Top (words (λ x. 0)) (i ∷ p) ≡ none
unfolding table_at child get_u32 pte_is_present
empty_path Top i [] = refl
empty_path Top i (j ∷ p) = rw (empty_path Top j p) refl

root_only :
    (Top : ℕ → Type 0) (p : List ℕ) (t : ℕ)
    → table_at base base Top (words (λ x. 0)) p ≡ some t
    → (p ≡ []) × (t ≡ base)
unfolding table_at
root_only Top [] t e = (refl, ground arith)
root_only Top (i ∷ p) t e = absurd (no (empty_path Top i p) e)
  where
    no : {r : Option ℕ} → r ≡ none → r ≡ some t → ⊥
    no a b = cc

empty_vm-Good :
    (Top : ℕ → Type 0) → Good allocator base base Top (InOrder base) (IsFree base) laws empty_vm
empty_vm-Good Top = (
  refl,
  record {
    frame = λ p t len inside e.
        subst (λ k. IsFrame base k × (IsFree base seven_pages k → ⊥)) (sym (root_only Top p t e).1)
          (
            record {
              ne_null = omega arith;
              above = omega arith;
              near = omega arith;
              aligned = refl;
              word = omega arith;
            },
            unused,
          );
    distinct = λ p q t lp lq ip iq e e'. (root_only Top p t e).0 ∙ sym (root_only Top q t e').0;
  },
  seven_pages-InOrder,
)
  where
    unused : IsFree base seven_pages base → ⊥
    unused (low, al, inl listed) = cc
    unused (low, al, inr region) = cc

abbrev user_rw : PtePermissions
user_rw = record { writable = true; executable = false; userspace = true }

map_pages_example :
    Maps allocator base base UserHalf
      (InOrder base)
      (IsFree base)
      laws
      (Exactly allocator base base UserHalf
        (InOrder base)
        (IsFree base)
        laws
        (λ x. frame_pte x user_rw))
      2
      (2 ^ 22)
      (2 ^ 30)
      empty_vm
      (vmm_map_pages allocator base (2 ^ 22) (2 * 4096) (2 ^ 30) user_rw empty_vm)
map_pages_example =
    map_pages-Maps allocator base base (InOrder base) (IsFree base) laws (2 ^ 22) 2 (2 ^ 30) user_rw
      empty_vm (empty_vm-Good UserHalf) (omega arith) (omega arith) refl refl (omega arith)
      (omega arith) (omega arith)

abbrev state_of : Option (Bool × Vm Stock) → Vm Stock
state_of none = empty_vm
state_of (some (b, v)) = v

-- the state with two pages mapped
abbrev mapped_vm : Vm Stock
unfolding vmm_map_pages map_each map_page walk walk_levels next_table link_table allocated write_pte
    fill_bytes place_pte pte_addr pte_is_present pte_index frame_pte get_u32 put_u32 mem_allocator
    supplied refill page_byte kalloc pop_free_page alloc_from_regions_for_page_cache take_page carve
    memset next_of
mapped_vm = state_of (vmm_map_pages allocator base (2 ^ 22) (2 * 4096) (2 ^ 30) user_rw empty_vm)

walkaddr_example :
    vmm_walkaddr allocator base (2 ^ 22 + 1 * 4096) true mapped_vm
    ≡ some (2 ^ 30 + 1 * 4096, mapped_vm)
unfolding vmm_map_pages map_each map_page walk walk_levels next_table link_table allocated write_pte
    fill_bytes place_pte pte_addr pte_is_present pte_index frame_pte get_u32 put_u32 mem_allocator
    supplied refill page_byte kalloc pop_free_page alloc_from_regions_for_page_cache take_page carve
    memset next_of
walkaddr_example =
    walkaddr-map_pages allocator base base (InOrder base) (IsFree base) laws (2 ^ 22) 2 (2 ^ 30) 1
      user_rw true empty_vm mapped_vm (empty_vm-Good UserHalf) (omega arith) refl refl (omega arith)
      (omega arith) (omega arith) (omega arith) refl

validate_example :
    (b : Bool) × (vmm_validate_user_ptr allocator base (2 ^ 22 + 5) 100 true empty_vm ≡ some b)
    × (b ≡ true
        → BytesAllow allocator base base
            (IsFree base seven_pages)
            empty_vm
            (empty_vm-Good UserHalf).1
            refl
            true
            (2 ^ 22 + 5)
            100)
    × (BytesAllow allocator base base
          (IsFree base seven_pages)
          empty_vm
          (empty_vm-Good UserHalf).1
          refl
          true
          (2 ^ 22 + 5)
          100
        → b ≡ true)
validate_example =
    validate_user_ptr-BytesAllow allocator base base (IsFree base seven_pages) empty_vm
      (empty_vm-Good UserHalf).1 refl (2 ^ 22 + 5) 100 true (omega arith) (omega arith)
      (omega arith)

panic_example : vmm_validate_user_ptr allocator base (2 ^ 45) 8 false empty_vm ≡ none
panic_example =
    validate_user_ptr_panics allocator base (2 ^ 45) 8 false empty_vm (omega arith) (omega arith)
      (omega arith) (omega arith)

mapped_vm-Good : Good allocator base base UserHalf (InOrder base) (IsFree base) laws mapped_vm
unfolding vmm_map_pages map_each map_page walk walk_levels next_table link_table allocated write_pte
    fill_bytes place_pte pte_addr pte_is_present pte_index frame_pte get_u32 put_u32 mem_allocator
    supplied refill page_byte kalloc pop_free_page alloc_from_regions_for_page_cache take_page carve
    memset next_of
mapped_vm-Good = map_pages_example.good

string_example :
    let run =
      vmm_copy_user_string allocator base (2 ^ 22 + 7) (2 ^ 21) (9 + 1) (λ k. 5) mapped_vm in
    let c : ℕ = 0 in
    ((c ≡ 0) × (run ≡ some (some 0, update (λ k. 5) 0 0)))
    ⊎ ((c ≢ 0)
        × (buf' : ℕ → ℕ) × (run ≡ some (none, buf'))
        × ((k : ℕ)
            → buf' k ≡ (if leb 0 k && ltb k (0 + 9) then c else if k == 0 + 9 then 0 else 5)))
unfolding vmm_map_pages map_each map_page walk walk_levels next_table link_table allocated write_pte
    fill_bytes place_pte pte_addr pte_is_present pte_index frame_pte get_u32 put_u32 mem_allocator
    supplied refill page_byte kalloc pop_free_page alloc_from_regions_for_page_cache take_page carve
    memset next_of allows pte_is_user table_at child path
string_example =
    copy_user_string-first_byte allocator base base (IsFree base mapped_vm.pages) mapped_vm
      mapped_vm-Good.1 refl (2 ^ 22 + 7) (2 ^ 21) 9 (λ k. 5) (omega arith) (omega arith)
      (omega arith) (omega arith) (omega arith) refl (λ e. cc)
