-- ===== src/Heap/Small.antt =====
-- Small allocations of kernel/src/mem/kmalloc.c: where they stand, what giving them back restores, and
-- where the walk over the pages leads.
use dz_os.Prelude.{
  ℕ, suc, ◌+◌, ◌-◌, ◌*◌, ◌/◌, ◌%◌, ◌^◌, ◌≤◌, ◌<◌, ◌≡◌, refl, ◌∙◌, ◌≢◌, ◌⊎◌, inl, true, false, some,
  arith, leb, ◌==◌, u32, u64, ==-ne,
}
use dz_os.Dzfs.Block.{get_u32, get_u32-put_u32_self, get_u32-bounds}
use dz_os.Heap.Mixed.{
  Heap, PageAllocator, km_align, km_align_up, km_magic_mixed, alloc_hdr_magic, get_u16, put_u16,
  total_needed, place, has_room, find_page, alloc_in, km_alloc_from_mixed_page, kmalloc,
}
use dz_os.Heap.Free.{page_of, release_bytes, km_free_from_mixed_page, kmfree}
use dz_os.Prelude.{==-ne}
use dz_os.Heap.Room.{place-Placed, get_u32-ext, get_u16-ext, put_u16_ne}

-- a page of the heap: aligned, and with the counters past the page's header
pub record IsPage (page : ℕ) (m : ℕ → ℕ) : Type 0 where
  pub nonzero : page ≢ 0
  pub aligned : page % 4096 ≡ 0
  pub past_header : 16 ≤ get_u32 m (page + 8)

room_fits :
    (page size : ℕ) (m : ℕ → ℕ)
    → has_room page size m ≡ true
    → size ≤ 2048
    → get_u32 m (page + 8) + total_needed size ≤ 4096
room_fits page size m h small = ground (arith, h, get_u32-bounds m (page + 8))

find_page-head :
    (fuel page size : ℕ) (m : ℕ → ℕ)
    → page ≢ 0
    → has_room page size m ≡ true
    → find_page (suc fuel) page size m ≡ some page
unfolding find_page
find_page-head fuel page size m nonzero room = rw (==-ne page 0 nonzero, room) refl

find_page-next :
    (fuel page size : ℕ) (m : ℕ → ℕ)
    → page ≢ 0
    → page % 4096 ≡ 0
    → page + 8192 ≤ 2 ^ 64
    → has_room page size m ≡ false
    → has_room (page + 4096) size m ≡ true
    → find_page (suc (suc fuel)) page size m ≡ some (page + 4096)
unfolding find_page
find_page-next fuel page size m nonzero aligned below full room =
    let next : u64 (page + 4096) ≡ page + 4096 = omega arith in
    let next_aligned : ((page + 4096) % 4096 == 0) ≡ true = ground arith in
    let next_nonzero : (page + 4096 == 0) ≡ false = ground arith in
    rw (==-ne page 0 nonzero, full, next, next_aligned, next_nonzero, room) refl

-- giving back the block whose header stands at an address
free_block :
    (at n page used : ℕ) (m : ℕ → ℕ)
    → (at + 4) / 4096 * 4096 ≡ page
    → page + 8 ≤ at
    → n ≤ 2048
    → get_u16 m (at + 2) ≡ alloc_hdr_magic
    → get_u16 m at ≡ n
    → get_u32 m page ≡ km_magic_mixed
    → get_u32 m (page + 4) ≡ used
    → total_needed n ≤ used
    → get_u32 (km_free_from_mixed_page (at + 4) m) (page + 4) ≡ used - total_needed n
unfolding km_free_from_mixed_page release_bytes
free_block at n page used m own above small check size magic count enough =
    let hdr : at + 4 - 4 ≡ at = omega arith in
    let cleared = put_u16 m (at + 2) 0 in
    let size_now : get_u16 cleared at ≡ n =
      get_u16-ext cleared m at (put_u16_ne m (at + 2) 0 at (omega arith))
        (put_u16_ne m (at + 2) 0 (at + 1) (omega arith))
      ∙ size in
    let used_now : get_u32 cleared (page + 4) ≡ used =
      get_u32-ext cleared m (page + 4) (λ k l h. put_u16_ne m (at + 2) 0 k (inl (omega arith)))
      ∙ count in
    let covers : leb (4 + km_align_up n km_align) used ≡ true = ground arith in
    let bound : used < 2 ^ 32 = omega (arith, count, get_u32-bounds m (page + 4)) in
    rw (hdr, own, check, magic, size_now, used_now, covers)
      (get_u32-put_u32_self cleared (page + 4) (u32 (used - total_needed n)) (omega arith)
        ∙ omega arith)

module _ {P : Type 0} (pa : PageAllocator P) where
  -- a small allocation from the page that the walk finds
  kmalloc-found :
      (fuel n page : ℕ) (h : Heap P)
      → 0 < n
      → n ≤ 2048
      → find_page fuel h.mixed_page_head n h.memory ≡ some page
      → page ≢ 0
      → kmalloc pa fuel n h
        ≡ some ((place page n h.memory).0, record h { memory = (place page n h.memory).1 })
  unfolding kmalloc km_alloc_from_mixed_page alloc_in
  kmalloc-found fuel n page h some_byte small found nonzero =
      let asked : (n == 0) ≡ false = ==-ne n 0 (omega arith) in
      let is_small : leb n 2048 ≡ true = ground arith in
      rw (asked, is_small, found) (rw (==-ne page 0 nonzero) refl)

  -- what a small allocation is: inside the page, past its header and every earlier block, and before every
  -- later one
  pub record Fits (h : Heap P) (n p : ℕ) (after : Heap P) : Type 0 where
    pub behind : h.mixed_page_head + get_u32 h.memory (h.mixed_page_head + 8) < p
    pub inside : p + n ≤ h.mixed_page_head + 4096
    pub before : p + n ≤ h.mixed_page_head + get_u32 after.memory (h.mixed_page_head + 8)
    pub kept :
        (j : ℕ)
        → (j < h.mixed_page_head + 4) ⊎ (h.mixed_page_head + 12 ≤ j)
        → (j < h.mixed_page_head + get_u32 h.memory (h.mixed_page_head + 8)) ⊎ (p ≤ j)
        → after.memory j ≡ h.memory j

  -- A small allocation for which the head page has room returns, with a block that stands in that page
  -- behind all the page's earlier blocks and before its later ones, and writes no byte outside the page's
  -- counters, the block's header and the block.
  pub kmalloc-Fits :
      (fuel n : ℕ) (h : Heap P)
      → 0 < n
      → n ≤ 2048
      → IsPage h.mixed_page_head h.memory
      → has_room h.mixed_page_head n h.memory ≡ true
      → (r : ℕ × Heap P) × (kmalloc pa (suc fuel) n h ≡ some r) × Fits h n r.0 r.1
  kmalloc-Fits fuel n h some_byte small v room =
      let page = h.mixed_page_head in
      let placed =
        place-Placed page n h.memory v.past_header (room_fits page n h.memory room small) small in
      (
        ((place page n h.memory).0, record h { memory = (place page n h.memory).1 }),
        kmalloc-found (suc fuel) n page h some_byte small
            (find_page-head fuel page n h.memory v.nonzero room) v.nonzero,
        record {
          behind = omega (arith, placed.block);
          inside = omega (arith, placed.block, room_fits page n h.memory room small);
          before = omega (arith, placed.block, placed.offset);
          kept = λ j far out. placed.frame j far (omega (arith, placed.block, out));
        },
      )

  -- When the head page is full, kmalloc does not ask for a page: it takes the block out of the next page
  -- of memory if the word at its offset 8 leaves room, whoever owns that page.
  pub kmalloc-next_page :
      (fuel n : ℕ) (h : Heap P)
      → 0 < n
      → n ≤ 2048
      → IsPage h.mixed_page_head h.memory
      → h.mixed_page_head + 8192 ≤ 2 ^ 64
      → has_room h.mixed_page_head n h.memory ≡ false
      → has_room (h.mixed_page_head + 4096) n h.memory ≡ true
      → (r : ℕ × Heap P) × (kmalloc pa (suc (suc fuel)) n h ≡ some r)
        × (h.mixed_page_head + 4096 < r.0)
        × (r.0 + n ≤ h.mixed_page_head + 8192)
        × ((r.1).mixed_page_head ≡ h.mixed_page_head)
        × ((r.1).pages ≡ h.pages)
  unfolding place
  kmalloc-next_page fuel n h some_byte small v below full room =
      let page = h.mixed_page_head + 4096 in
      (
        ((place page n h.memory).0, record h { memory = (place page n h.memory).1 }),
        kmalloc-found (suc (suc fuel)) n page h some_byte small
            (find_page-next fuel h.mixed_page_head n h.memory v.nonzero v.aligned below full room)
            (omega arith),
        omega arith,
        omega (arith, room_fits page n h.memory room small),
        refl,
        refl,
      )

  -- Giving a small block back takes off the count of its page what the allocation had added. The page is
  -- one of the heap's, and the counter did not overflow.
  pub kmfree-kmalloc :
      (fuel n : ℕ) (h : Heap P)
      → 0 < n
      → n ≤ 2048
      → IsPage h.mixed_page_head h.memory
      → has_room h.mixed_page_head n h.memory ≡ true
      → get_u32 h.memory h.mixed_page_head ≡ km_magic_mixed
      → get_u32 h.memory (h.mixed_page_head + 4) + total_needed n < 2 ^ 32
      → (r : ℕ × Heap P) × (kmalloc pa (suc fuel) n h ≡ some r)
        × (get_u32 (kmfree pa r.0 r.1).memory (h.mixed_page_head + 4)
            ≡ get_u32 h.memory (h.mixed_page_head + 4))
  unfolding kmfree
  kmfree-kmalloc fuel n h some_byte small v room magic counted =
      let page = h.mixed_page_head in
      let m = h.memory in
      let r = place page n m in
      let fits = room_fits page n m room small in
      let placed = place-Placed page n m v.past_header fits small in
      let at = page + get_u32 m (page + 8) in
      let own : page_of r.0 ≡ page = omega (arith, placed.block, fits, v.aligned) in
      let tagged : get_u32 r.1 page ≡ km_magic_mixed =
        get_u32-ext r.1 m page
          (λ k l u. placed.frame k (inl (omega arith)) (inl (omega (arith, v.past_header))))
        ∙ magic in
      let nonnull : (r.0 == 0) ≡ false = ground (arith, placed.block) in
      let freed =
        free_block at n page (get_u32 m (page + 4) + total_needed n) r.1
          (omega (arith, fits, v.aligned)) (omega (arith, v.past_header)) small placed.stored_check
          placed.stored_size tagged (omega (arith, placed.used)) (omega arith) in
      (
        (r.0, record h { memory = r.1 }),
        kmalloc-found (suc fuel) n page h some_byte small
            (find_page-head fuel page n m v.nonzero room) v.nonzero,
        rw (nonnull, own, tagged, placed.block) (freed ∙ omega arith),
      )
