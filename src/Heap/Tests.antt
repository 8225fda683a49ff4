-- ===== src/Heap/Tests.antt =====
-- The kernel heap at concrete memories.
use dz_os.Prelude.{ℕ, ◌+◌, ◌*◌, ◌≡◌, refl, true, some, arith}
use dz_os.Dzfs.Block.{get_u32, put_u32}
use dz_os.Heap.Mixed.{Heap, PageAllocator, has_room, kmalloc, init_mixed_page}
use dz_os.Heap.Small.{IsPage, Fits, kmalloc-Fits}

-- pages handed out upwards, and never taken back
abbrev upward : PageAllocator ℕ
upward = record {
  kalloc = λ m p. (p, m, p + 4096);
  kfree = λ q m p. (m, p);
  kalloc_pages = λ n m p. (p, m, p + 4096 * n);
  kfree_pages = λ q n m p. (m, p);
}

abbrev one_page : Heap ℕ
one_page = record {
  mixed_page_head = 8192;
  arena_head = 0;
  bin_heads = λ i. 0;
  memory = init_mixed_page 8192 (λ i. 0);
  pages = 12288;
}

started-IsPage : IsPage 8192 one_page.memory
unfolding init_mixed_page put_u32 get_u32
started-IsPage = record { nonzero = omega arith; aligned = refl; past_header = omega arith }

one_page_room : has_room 8192 100 one_page.memory ≡ true
unfolding init_mixed_page put_u32 get_u32
one_page_room = refl

allocation_example :
    (r : ℕ × Heap ℕ) × (kmalloc upward 1 100 one_page ≡ some r) × Fits upward one_page 100 r.0 r.1
allocation_example =
    kmalloc-Fits upward 0 100 one_page (omega arith) (omega arith) started-IsPage one_page_room
