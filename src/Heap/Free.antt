-- ===== src/Heap/Free.antt =====
-- Giving memory back in kernel/src/mem/kmalloc.c.
use dz_os.Prelude.{
  ℕ, ◌+◌, ◌-◌, ◌*◌, ◌/◌, ◌%◌, ◌^◌, not, leb, ◌==◌, if◌then◌else◌, u16, u32, u64, update,
}
use dz_os.Dzfs.Block.{get_u32, put_u32, get_u8, put_u8}
use dz_os.Dzfs.Bits.{clear_mask}
use dz_os.Heap.Mixed.{
  Heap, PageAllocator, km_align, km_align_up, km_magic_small, km_magic_large, km_magic_arena,
  km_magic_mixed, alloc_hdr_magic, get_u16, put_u16, page_magic, page_used_bytes,
}

-- `(uintptr_t)p & ~(uintptr_t)(PAGE_SIZE - 1)`
abbrev pub page_of : ℕ → ℕ
page_of p = p / 4096 * 4096

-- a 64-bit word of memory
abbrev pub get_u64 : (ℕ → ℕ) → ℕ → ℕ
get_u64 m i = get_u32 m i + 2 ^ 32 * get_u32 m (i + 4)

abbrev pub put_u64 : (ℕ → ℕ) → ℕ → ℕ → ℕ → ℕ
put_u64 m i v = put_u32 (put_u32 m i (u32 v)) (i + 4) (u32 (v / 2 ^ 32))

-- `page->used_bytes -= freed_size`, if there are as many
unfoldable pub release_bytes : ℕ → ℕ → (ℕ → ℕ) → ℕ → ℕ
release_bytes page freed m =
    let used = get_u32 m (page_used_bytes page) in
    if leb freed used then put_u32 m (page_used_bytes page) (u32 (used - freed)) else m

unfoldable pub km_free_from_mixed_page : ℕ → (ℕ → ℕ) → ℕ → ℕ
km_free_from_mixed_page p m =
    let page = page_of p in
    let cleared = put_u16 m (p - 4 + 2) 0 in
    let freed = 4 + km_align_up (get_u16 cleared (p - 4)) km_align in
    if not (get_u16 m (p - 4 + 2) == alloc_hdr_magic)
    then m
    else if not (get_u32 m (page_magic page) == km_magic_mixed)
    then m
    else release_bytes page freed cleared

-- `arena_hdr`: 24 bytes, the capacity at 14 and the count at 16
abbrev pub arena_objs_base : ℕ → (ℕ → ℕ) → ℕ
arena_objs_base a m = a + 24 + (get_u16 m (a + 14) + 63) / 64 * 8

unfoldable pub km_free_to_arena : ℕ → ℕ → (ℕ → ℕ) → ℕ → ℕ
km_free_to_arena a p m =
    let index = u16 (u64 (p + 2 ^ 64 - arena_objs_base a m) / km_align) in
    let byte = a + 24 + index / 8 in
    let cleared = put_u8 m byte (clear_mask (get_u8 m byte) (index % 8)) in
    if leb (get_u16 m (a + 14)) index
    then m
    else put_u16 cleared (a + 16) (u16 (get_u16 cleared (a + 16) + (2 ^ 16 - 1)))

-- `slab_hdr`: 24 bytes, obj_size at 8, capacity at 10, free_count at 12, class_idx at 14, top at 20
abbrev pub slab_objs_base : ℕ → (ℕ → ℕ) → ℕ
slab_objs_base h m = h + 24 + get_u16 m (h + 10) * 2

-- the index pushed on the stack of free objects, and the count
unfoldable pub push_object : ℕ → ℕ → (ℕ → ℕ) → ℕ → ℕ
push_object h p m =
    let index = u16 (u64 (p + 2 ^ 64 - slab_objs_base h m) / get_u16 m (h + 8)) in
    let top = get_u16 m (h + 20) in
    let m1 = put_u16 (put_u16 m (h + 20) (u16 (top + 1))) (h + 24 + 2 * top) index in
    put_u16 m1 (h + 12) (u16 (get_u16 m1 (h + 12) + 1))

module _ {P : Type 0} (pa : PageAllocator P) where
  unfoldable pub release_page : ℕ → Heap P → Heap P
  release_page base h =
      let r = pa.kfree base h.memory h.pages in record h { memory = r.0; pages = r.1 }

  unfoldable pub km_free_to_bin : ℕ → ℕ → ℕ → Heap P → Heap P
  km_free_to_bin bin slab p h =
      let pushed = record h { memory = push_object slab p h.memory } in
      let linked =
        if get_u16 pushed.memory (slab + 12) == 1
        then record pushed {
          memory = put_u64 pushed.memory slab (h.bin_heads bin);
          bin_heads = update h.bin_heads bin slab;
        }
        else pushed in
      let unlinked =
        if linked.bin_heads bin == slab
        then record linked { bin_heads = update linked.bin_heads bin (get_u64 linked.memory slab) }
        else linked in
      if get_u16 linked.memory (slab + 12) == get_u16 linked.memory (slab + 10)
      then release_page slab unlinked
      else linked

  unfoldable pub free_large : ℕ → Heap P → Heap P
  free_large p h =
      let r = pa.kfree_pages (p - 16) (get_u32 h.memory (p - 16 + 4)) h.memory h.pages in
      if get_u32 h.memory (p - 16) == km_magic_large
      then record h { memory = r.0; pages = r.1 }
      else release_page (page_of p) h

  unfoldable pub kmfree : ℕ → Heap P → Heap P
  kmfree p h =
      let base = page_of p in
      let magic = get_u32 h.memory base in
      if p == 0
      then h
      else if magic == km_magic_mixed
      then record h { memory = km_free_from_mixed_page p h.memory }
      else if magic == km_magic_arena
      then record h { memory = km_free_to_arena base p h.memory }
      else if magic == km_magic_small
      then km_free_to_bin (get_u16 h.memory (base + 14)) base p h
      else if magic == km_magic_large
      then free_large p h
      else release_page base h
