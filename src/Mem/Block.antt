-- ===== src/Mem/Block.antt =====
-- Blocks of contiguous pages from the regions, `alloc_contiguous_from_regions` of kernel/src/mem/mem.c.
use dz_os.Prelude.{
  ℕ, ◌+◌, ◌-◌, ◌*◌, ◌%◌, ◌^◌, ◌≤◌, ◌<◌, ◌≡◌, refl, ◌⊎◌, inl, inr, true, false, Option, none, some,
  List, [], ◌∷◌, arith, leb, ◌==◌, u64, Bool-cases, All,
}
use dz_os.Mem.State.{Mem, Region, page_size, p2v}
use dz_os.Mem.Single.{carve}
use dz_os.Mem.Multi.{keep_region, take_bytes, after_walk, alloc_contiguous_from_regions}
use dz_os.Mem.Valid.{in_regions, Regions}
use dz_os.Mem.Pages.{in_block, Carved, carve-Regions, carve-Carved}

-- What the walk for `n` bytes gives: the block's pages all lay in the regions, no region holds one of
-- them afterwards, the others stay, and the regions stay in order; or every region is too small.
abbrev pub Takes : ℕ → ℕ → List Region → Option (ℕ × List Region) → Type 0
Takes h n rs none = All (λ r. r.phys_end - r.phys_cur < n) rs
Takes h n rs (some (p, rs')) =
    ((a : ℕ) → in_block p n a ≡ true → in_regions a rs ≡ true) × Carved p n rs rs' × Regions h rs'

take_head :
    (h n : ℕ) (r : Region) (rs : List Region)
    → Regions h (r ∷ rs)
    → 0 < n
    → n % page_size ≡ 0
    → r.phys_cur + n ≤ r.phys_end
    → Takes h n (r ∷ rs) (some (r.phys_cur, carve n r rs))
take_head h n r rs ok pos whole fits = (
  λ a i. ground arith,
  carve-Carved h n r rs ok pos whole fits,
  carve-Regions h n r rs ok pos whole fits,
)

take_later :
    (h n : ℕ) (r : Region) (rs : List Region) (x : Option (ℕ × List Region))
    → Regions h (r ∷ rs)
    → r.phys_end - r.phys_cur < n
    → Takes h n rs x
    → Takes h n (r ∷ rs) (keep_region r x)
unfolding keep_region
take_later h n r rs none ok few t = (few, t)
take_later h n r rs (some (p, rs')) ok few (inside, carved, ok') = (
  λ a i. ground (arith, inside a i),
  λ a. ground (arith, carved a, inside a, ok.1 a),
  (ok.0, λ a i. ground (arith, carved a, ok.1 a i), ok'),
)

take_bytes-Takes :
    (h n : ℕ) (rs : List Region)
    → Regions h rs
    → 0 < n
    → n % page_size ≡ 0
    → Takes h n rs (take_bytes n rs)
unfolding take_bytes
take_bytes-Takes h n [] ok pos whole = tt
take_bytes-Takes h n (r ∷ rs) ok pos whole =
    let room : (r.phys_end + 2 ^ 64 - r.phys_cur) % 2 ^ 64 ≡ r.phys_end - r.phys_cur =
      omega (arith, ok.0.nonempty, ok.0.mapped) in
    elim (Bool-cases (leb n (r.phys_end - r.phys_cur))) [
      | inl fits ↦ rw (room, fits) (take_head h n r rs ok pos whole (ground (arith, ok.0.nonempty)))
      | inr few ↦
          rw (room, few)
            (take_later h n r rs (take_bytes n rs) ok (ground arith)
              (take_bytes-Takes h n rs ok.2 pos whole))
    ]

-- what the caller gets, from what the walk gave
given_block :
    (n : ℕ) (m : Mem) (r : Option (ℕ × List Region))
    → Takes m.hhdm_offset n m.regions r
    → ((after_walk m r ≡ (0, m)) × All (λ r. r.phys_end - r.phys_cur < n) m.regions)
      ⊎ ((phys : ℕ) × (rs : List Region) × (after_walk m r
            ≡ (p2v m phys, record m { regions = rs }))
          × Takes m.hhdm_offset n m.regions (some (phys, rs)))
unfolding after_walk
given_block n m none t = inl (refl, t)
given_block n m (some (phys, rs)) t = inr (phys, rs, refl, t)

-- On regions in order, a request of one or more pages, fewer than 2 ^ 52, either gets the block of some
-- region: its pages were all free, no region holds one of them afterwards, and all others stay; or it
-- gets NULL, with nothing changed, because every region is too small.
pub contiguous-Takes :
    (n : ℕ) (m : Mem)
    → Regions m.hhdm_offset m.regions
    → 0 < n
    → n < 2 ^ 52
    → ((alloc_contiguous_from_regions n m ≡ (0, m))
        × All (λ r. r.phys_end - r.phys_cur < n * page_size) m.regions)
      ⊎ ((phys : ℕ) × (rs : List Region) × (alloc_contiguous_from_regions n m
            ≡ (p2v m phys, record m { regions = rs }))
          × Takes m.hhdm_offset (n * page_size) m.regions (some (phys, rs)))
unfolding alloc_contiguous_from_regions
contiguous-Takes n m ok pos small =
    let some_pages : (n == 0) ≡ false = ground arith in
    let exact : u64 (n * page_size) ≡ n * page_size = omega arith in
    rw (some_pages, exact)
      (given_block (n * page_size) m (take_bytes (n * page_size) m.regions)
        (take_bytes-Takes m.hhdm_offset (n * page_size) m.regions ok (omega arith) (omega arith)))
