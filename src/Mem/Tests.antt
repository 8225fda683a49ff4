-- ===== src/Mem/Tests.antt =====
-- Runs of the page allocator of kernel/src/mem/mem.c on one free page and one region.
use dz_os.Prelude.{
  ℕ, ◌-◌, ◌*◌, ◌<◌, ◌≡◌, refl, ◌⊎◌, true, false, Option, some, List, [], ◌∷◌, arith, All,
}
use dz_os.Mem.Block.{Takes, contiguous-Takes}
use dz_os.Mem.Multi.{alloc_contiguous_from_regions}
use dz_os.Mem.Boot.{IsBooted, init_mem-IsBooted}
use dz_os.Mem.Init.{Entry, init_mem}
use dz_os.Mem.State.{Region, p2v, fill, Mem, link, page_size, next_of, kfree}
use dz_os.Mem.Single.{kalloc}
use dz_os.Mem.Valid.{IsValid}
use dz_os.Mem.Pages.{Handed, Allocates}
use dz_os.Mem.Kalloc.{kalloc_lem}
use dz_os.Mem.Kfree.{IsUsed, kalloc-kfree}

-- one page on the free list, and a region of two pages
abbrev small : Mem
small = record {
  hhdm_offset = 1048576;
  phys_max_end = 65536;
  freepages = 1052672;
  page = λ a. link 0;
  regions = record { phys_cur = 8192; phys_end = 16384 } ∷ [];
  mem_initialized = true;
  static_region_pool_idx = 1;
}

small-IsValid : IsValid small (1052672 ∷ [])
unfolding next_of
small-IsValid = record {
  hhdm_pos = omega arith;
  hhdm_aligned = refl;
  hhdm_word = omega arith;
  chain = (refl, omega arith, refl, refl);
  pages = (record { above = omega arith; aligned = refl; word = omega arith; apart = refl }, tt);
  regions = (
    record { nonempty = omega arith; cur_aligned = refl; end_aligned = refl; mapped = omega arith },
    λ a h. refl,
    tt,
  );
}

IsUsed-IsUsed : IsUsed small (1052672 ∷ []) 1064960
IsUsed-IsUsed = record {
  ne_null = omega arith;
  page = record { above = omega arith; aligned = refl; word = omega arith; apart = refl };
  used = refl;
}

kalloc_example : Allocates 0 2 small (1052672 ∷ []) small.regions (kalloc small)
kalloc_example = kalloc_lem small (1052672 ∷ []) small-IsValid

round_trip_example :
    (m' : Mem) × (kfree small 1064960 ≡ some m')
    × ((kalloc m').0 ≡ 1064960)
    × Handed m' (kalloc m').1 (1052672 ∷ []) 1064960 0
round_trip_example = kalloc-kfree small (1052672 ∷ []) 1064960 small-IsValid IsUsed-IsUsed

abbrev inside_page : ℕ
inside_page = 1052673

-- an allocator not booted yet, and a usable entry at 5 GiB
abbrev unbooted : Mem
unbooted = record {
  hhdm_offset = 0;
  phys_max_end = 0;
  freepages = 0;
  page = λ a. fill 0;
  regions = [];
  mem_initialized = false;
  static_region_pool_idx = 0;
}

abbrev high_entry : Option Entry
high_entry = some (record { base = 5368709120; length = 65536; type = 0 })

boot_example :
    (m' : Mem) × (init_mem 1048576 (some (high_entry ∷ [])) unbooted ≡ some m') × IsBooted m'
boot_example =
    init_mem-IsBooted 1048576 (high_entry ∷ []) unbooted (record { regions = tt; pool = refl }) refl
      (omega arith)

block_example :
    ((alloc_contiguous_from_regions 2 small ≡ (0, small))
      × All (λ r. r.phys_end - r.phys_cur < 2 * page_size) small.regions)
    ⊎ ((phys : ℕ) × (rs : List Region) × (alloc_contiguous_from_regions 2 small
          ≡ (p2v small phys, record small { regions = rs }))
        × Takes small.hhdm_offset (2 * page_size) small.regions (some (phys, rs)))
block_example = contiguous-Takes 2 small small-IsValid.regions (omega arith) (omega arith)
