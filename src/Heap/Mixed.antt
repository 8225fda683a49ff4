-- ===== src/Heap/Mixed.antt =====
-- Allocation in kernel/src/mem/kmalloc.c: the mixed pages and the large blocks. Memory is its bytes by
-- address, and the page allocator is an interface.
use dz_os.Prelude.{
  ℕ, zero, suc, ◌+◌, ◌-◌, ◌*◌, ◌/◌, ◌%◌, ◌^◌, Bool, not, ◌&&◌, Option, none, some, ltb, leb, ◌==◌,
  if◌then◌else◌, u16, u32, u64, ◌>>=◌,
}
use dz_os.Mem.State.{page_round_up, page_size}
use dz_os.Dzfs.Block.{get_u32, put_u32, get_u8, put_u8}

abbrev pub km_align : ℕ
km_align = 16

abbrev pub km_max_small : ℕ
km_max_small = 4096 / 2

abbrev pub km_magic_small : ℕ
km_magic_small = 0xC0FFEE11

abbrev pub km_magic_large : ℕ
km_magic_large = 0xC0FFEE22

abbrev pub km_magic_arena : ℕ
km_magic_arena = 0xC0FFEE33

abbrev pub km_magic_mixed : ℕ
km_magic_mixed = 0xC0FFEE44

abbrev pub alloc_hdr_magic : ℕ
alloc_hdr_magic = 0xBEEF

-- `MIXED_PAGE_START`, the size of the page header
abbrev pub mixed_page_start : ℕ
mixed_page_start = 16

abbrev pub mixed_page_max_used : ℕ
mixed_page_max_used = 4096 - 256

-- `(n + (a - 1)) & ~(a - 1)` for `a` a power of two, on 64 bits
abbrev pub km_align_up : ℕ → ℕ → ℕ
km_align_up n a = u64 (n + (a - 1)) / a * a

abbrev pub get_u16 : (ℕ → ℕ) → ℕ → ℕ
get_u16 m i = get_u8 m i + 2 ^ 8 * get_u8 m (i + 1)

abbrev pub put_u16 : (ℕ → ℕ) → ℕ → ℕ → ℕ → ℕ
put_u16 m i v = put_u8 (put_u8 m i v) (i + 1) (v / 2 ^ 8)

-- `mixed_page_hdr` at an address
abbrev pub page_magic : ℕ → ℕ
page_magic page = page

abbrev pub page_used_bytes : ℕ → ℕ
page_used_bytes page = page + 4

abbrev pub page_free_offset : ℕ → ℕ
page_free_offset page = page + 8

abbrev pub page_pad : ℕ → ℕ
page_pad page = page + 12

-- The calls of kernel/src/mem/mem.c. An address is 0 for NULL; the calls may write memory.
pub record PageAllocator (P : Type 0) : Type 0 where
  pub kalloc : (ℕ → ℕ) → P → ℕ × (ℕ → ℕ) × P
  pub kfree : ℕ → (ℕ → ℕ) → P → (ℕ → ℕ) × P
  pub kalloc_pages : ℕ → (ℕ → ℕ) → P → ℕ × (ℕ → ℕ) × P
  pub kfree_pages : ℕ → ℕ → (ℕ → ℕ) → P → (ℕ → ℕ) × P

-- the static data of kmalloc.c, with memory and the page allocator's state
pub record Heap (P : Type 0) : Type 0 where
  pub mixed_page_head : ℕ
  pub arena_head : ℕ
  pub bin_heads : ℕ → ℕ
  pub memory : ℕ → ℕ
  pub pages : P

abbrev pub total_needed : ℕ → ℕ
total_needed size = 4 + km_align_up size km_align

-- the header of an allocation and the counters of its page
unfoldable pub place : ℕ → ℕ → (ℕ → ℕ) → ℕ × (ℕ → ℕ)
place page size m =
    let at = page + get_u32 m (page_free_offset page) in
    let m1 = put_u16 (put_u16 m at (u16 size)) (at + 2) alloc_hdr_magic in
    let m2 =
      put_u32 m1 (page_free_offset page)
        (u32 (get_u32 m1 (page_free_offset page) + total_needed size)) in
    (
      at + 4,
      put_u32 m2 (page_used_bytes page)
          (u32 (get_u32 m2 (page_used_bytes page) + total_needed size)),
    )

-- whether a page has room: `PAGE_SIZE - page->free_offset` is on 32 bits
abbrev pub has_room : ℕ → ℕ → (ℕ → ℕ) → Bool
has_room page size m =
    let free_offset = get_u32 m (page_free_offset page) in
    leb (total_needed size) (u32 (4096 + (2 ^ 32 - free_offset)))
    && ltb free_offset mixed_page_max_used

-- The walk over the pages, on fuel: the page with room, 0 when the walk ends, `none` when the fuel does.
unfoldable pub find_page : ℕ → ℕ → ℕ → (ℕ → ℕ) → Option ℕ
find_page zero page size m = none
find_page (suc n) page size m =
    let rest = find_page n (u64 (page + 4096)) size m in
    if page == 0
    then some 0
    else if has_room page size m
    then some page
    else if not (u64 (page + 4096) % 4096 == 0)
    then some 0
    else rest

unfoldable pub init_mixed_page : ℕ → (ℕ → ℕ) → ℕ → ℕ
init_mixed_page page m =
    put_u32
      (put_u32
        (put_u32 (put_u32 m (page_magic page) km_magic_mixed) (page_used_bytes page)
          mixed_page_start)
        (page_free_offset page) mixed_page_start)
      (page_pad page) 0

unfoldable pub kmalloc_init : {P : Type 0} → Heap P → Heap P
kmalloc_init h = record h {
  mixed_page_head = 0;
  arena_head = 0;
  bin_heads = λ i. if ltb i 8 then 0 else h.bin_heads i;
}

-- `memset(ptr, 0, n)`
abbrev pub zero_bytes : ℕ → ℕ → (ℕ → ℕ) → ℕ → ℕ
zero_bytes ptr n m j = if leb ptr j && ltb j (ptr + n) then 0 else m j

module _ {P : Type 0} (pa : PageAllocator P) where
  unfoldable pub km_new_mixed_page : Heap P → ℕ × Heap P
  km_new_mixed_page h =
      let r = pa.kalloc h.memory h.pages in
      let taken = record h { memory = r.1; pages = r.2 } in
      if r.0 == 0 then (0, taken) else (r.0, record taken { memory = init_mixed_page r.0 r.1 })

  -- the allocation from a page, 0 for a new one
  unfoldable pub alloc_in : ℕ → ℕ → Heap P → ℕ × Heap P
  alloc_in page size h =
      let found = place page size h.memory in
      let new = km_new_mixed_page h in
      let fresh = place new.0 size (new.1).memory in
      if not (page == 0)
      then (found.0, record h { memory = found.1 })
      else if new.0 == 0
      then (0, new.1)
      else (fresh.0, record (new.1) { mixed_page_head = new.0; memory = fresh.1 })

  unfoldable pub km_alloc_from_mixed_page : ℕ → ℕ → Heap P → Option (ℕ × Heap P)
  km_alloc_from_mixed_page fuel size h =
      find_page fuel h.mixed_page_head size h.memory >>= λ page. some (alloc_in page size h)

  unfoldable pub alloc_large : ℕ → Heap P → ℕ × Heap P
  alloc_large n h =
      let count = page_round_up (u64 (km_align_up n km_align + 16)) / page_size in
      let r = pa.kalloc_pages count h.memory h.pages in
      let taken = record h { memory = r.1; pages = r.2 } in
      let filled =
        put_u32
          (put_u32 (put_u32 (put_u32 r.1 r.0 km_magic_large) (r.0 + 4) (u32 count)) (r.0 + 8) 0)
          (r.0 + 12) 0 in
      if r.0 == 0 then (0, taken) else (r.0 + 16, record taken { memory = filled })

  unfoldable pub kmalloc : ℕ → ℕ → Heap P → Option (ℕ × Heap P)
  kmalloc fuel n h =
      let size = if n == 0 then 1 else n in
      if leb size km_max_small
      then km_alloc_from_mixed_page fuel size h
      else some (alloc_large size h)

  unfoldable pub kcmalloc : ℕ → ℕ → Heap P → Option (ℕ × Heap P)
  kcmalloc fuel n h = kmalloc fuel n h >>= λ r.
      some (if r.0 == 0 then r else (r.0, record (r.1) { memory = zero_bytes r.0 n (r.1).memory }))
