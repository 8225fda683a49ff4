-- ===== src/Mem/Multi.antt =====
-- Allocation and release of several contiguous pages in kernel/src/mem/mem.c.
use dz_os.Prelude.{
  ℕ, zero, suc, ◌+◌, ◌*◌, ◌^◌, ◌%◌, ◌-◌, List, [], ◌∷◌, Option, none, some, leb, ◌==◌,
  if◌then◌else◌, u64, update, ◌>>=◌,
}
use dz_os.Mem.State.{Mem, Region, link, page_size, v2p, p2v, next_of, memset, unaligned, kfree}
use dz_os.Mem.Single.{carve, kalloc}

-- a region that the walk passes by
unfoldable pub keep_region : Region → Option (ℕ × List Region) → Option (ℕ × List Region)
keep_region r none = none
keep_region r (some (phys, rs)) = some (phys, r ∷ rs)

-- the first region with that many bytes left
unfoldable pub take_bytes : ℕ → List Region → Option (ℕ × List Region)
unfolding carve keep_region
take_bytes n [] = none
take_bytes n (r ∷ rs) =
    let rest = take_bytes n rs in
    if leb n ((r.phys_end + 2 ^ 64 - r.phys_cur) % 2 ^ 64)
    then some (r.phys_cur, carve n r rs)
    else keep_region r rest

-- the pointer returned, and the state, from what the walk gave
unfoldable pub after_walk : Mem → Option (ℕ × List Region) → ℕ × Mem
after_walk m none = (0, m)
after_walk m (some (phys, rs)) = (p2v m phys, record m { regions = rs })

unfoldable pub alloc_contiguous_from_regions : ℕ → Mem → ℕ × Mem
alloc_contiguous_from_regions n m =
    if n == 0 then (0, m) else after_walk m (take_bytes (u64 (n * page_size)) m.regions)

-- The inner loop, from round `i` with `k` rounds left: the last page of the block, if each page is
-- followed on the list by the one above it in memory.
unfoldable pub scan_block : Mem → ℕ → ℕ → ℕ → ℕ → Option ℕ
scan_block m base zero i scan = some scan
scan_block m base (suc k) i scan =
    let after = next_of (m.page scan) in
    let rest = scan_block m base k (i + 1) after in
    if after == 0
    then none
    else if u64 (v2p m base + u64 (i * page_size)) == v2p m after
    then rest
    else none

-- the free list from `scan` on takes the place of the block that follows `prev`
unfoldable pub unlink_block : Mem → ℕ → ℕ → Mem
unlink_block m prev scan =
    if prev == 0
    then record m { freepages = next_of (m.page scan) }
    else record m { page = update m.page prev (link (next_of (m.page scan))) }

-- The outer loop. `none` means that the fuel ran out.
unfoldable pub find_block : ℕ → ℕ → Mem → ℕ → ℕ → Option (ℕ × Mem)
find_block zero n m prev it = none
find_block (suc f) n m prev it =
    let rest = find_block f n m it (next_of (m.page it)) in
    if it == 0 then some (0, m) else elim (scan_block m it (n - 1) 1 it) [
      | some scan ↦ some (it, unlink_block m prev scan)
      | none ↦ rest
    ]

unfoldable pub alloc_contiguous_from_freelist : ℕ → ℕ → Mem → Option (ℕ × Mem)
alloc_contiguous_from_freelist fuel n m =
    if leb n 1 then some (0, m) else find_block fuel n m 0 m.freepages

-- the path of `kalloc_pages` for a free list with no such block
abbrev slow_path : ℕ → Mem → ℕ × Mem
slow_path n m =
    let (p, m') = alloc_contiguous_from_regions n m in
    if p == 0 then (0, m') else (p, memset m' p 2 n)

unfoldable pub kalloc_pages : ℕ → ℕ → Mem → Option (ℕ × Mem)
kalloc_pages fuel n m =
    if n == 0
    then some (0, m)
    else if n == 1
    then some (kalloc m)
    else (alloc_contiguous_from_freelist fuel n m >>= λ (p, m').
        some (if p == 0 then slow_path n m' else (p, memset m' p 2 n)))

-- The loop of `kfree_pages`, from page `i` with `k` rounds left.
unfoldable pub free_from : ℕ → ℕ → ℕ → Mem → Option Mem
free_from va zero i m = some m
free_from va (suc k) i m = kfree m (u64 (va + u64 (i * page_size))) >>= free_from va k (i + 1)

unfoldable pub kfree_pages : Mem → ℕ → ℕ → Option Mem
kfree_pages m p n =
    if p == 0
    then some m
    else if n == 0
    then some m
    else if unaligned p
    then none
    else free_from p n 0 m
