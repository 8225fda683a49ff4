-- ===== src/Mem/Pages.antt =====
-- Single pages of kernel/src/mem/mem.c: what the allocators hand out is free no longer.
use dz_os.Prelude.{
  true, ℕ, ◌+◌, ◌-◌, ◌%◌, ◌≤◌, ◌<◌, ◌≡◌, ◌≢◌, inl, inr, Bool, false, not, ◌&&◌, some, List, [], ◌∷◌,
  arith, ltb, leb, u64, Bool-cases, has,
}
use dz_os.Mem.State.{Mem, Region, fill, page_size, p2v, memset}
use dz_os.Mem.Single.{carve, take_page}
use dz_os.Mem.Valid.{in_regions, IsRegion, Regions, IsValid}

-- the addresses of the page or block of `n` bytes at `p`
abbrev pub in_block : ℕ → ℕ → ℕ → Bool
in_block p n a = leb p a && ltb a (p + n)

-- The regions `rs'` are `rs` less the `n` bytes at `p`.
abbrev pub Carved : ℕ → ℕ → List Region → List Region → Type 0
Carved p n rs rs' = (a : ℕ) → in_regions a rs' ≡ (in_regions a rs && not (in_block p n a))

module _ (h n : ℕ) (r : Region) (rs : List Region) (ok : Regions h (r ∷ rs)) (pos : 0 < n)
    (whole : n % page_size ≡ 0) (fits : r.phys_cur + n ≤ r.phys_end) where
  -- Carving whole pages off a region leaves regions that do not overlap,
  pub carve-Regions : Regions h (carve n r rs)
  unfolding carve
  carve-Regions = elim (Bool-cases (leb r.phys_end (u64 (r.phys_cur + n)))) [
    | inl all ↦ rw all ok.2
    | inr left ↦ rw left (ground arith, λ a i. ok.1 a (ground arith), ok.2)
  ]

  -- and takes exactly those pages out of them.
  pub carve-Carved : Carved r.phys_cur n (r ∷ rs) (carve n r rs)
  unfolding carve
  carve-Carved a = ground (arith, ok.0.mapped, ok.1 a)

-- A page handed out: it is free no longer, it holds `b`, no other page has changed, and no region has grown.
pub record Handed (m m' : Mem) (xs' : List ℕ) (p b : ℕ) : Type 0 where
  pub ne_null : p ≢ 0
  pub aligned : p % page_size ≡ 0
  pub valid : IsValid m' xs'
  pub taken : has p xs' ≡ false
  pub apart : in_regions (p - m'.hhdm_offset) m'.regions ≡ false
  pub filled : m'.page p ≡ fill b
  pub same : (a : ℕ) → a % page_size ≡ 0 → a ≢ p → m'.page a ≡ m.page a
  pub hhdm : m'.hhdm_offset ≡ m.hhdm_offset
  pub less : (a : ℕ) → in_regions a m'.regions ≡ true → in_regions a m.regions ≡ true

-- What an allocator of one page does in a state with the free pages `xs`: it takes the first of
-- them and fills it with `b`; else the first page of the regions, filled with `c`; else nothing.
abbrev pub Allocates : ℕ → ℕ → Mem → List ℕ → List Region → ℕ × Mem → Type 0
Allocates b c m (x ∷ xs) rs (p, m') = (p ≡ x) × Handed m m' xs p b
Allocates b c m [] (r ∷ rs) (p, m') = (p ≡ p2v m r.phys_cur) × Handed m m' [] p c
Allocates b c m [] [] (p, m') = (p ≡ 0) × (m' ≡ m)

pub memset_one :
    (m : Mem) (p b a : ℕ)
    → a % page_size ≡ 0
    → p % page_size ≡ 0
    → a ≢ p
    → (memset m p b 1).page a ≡ m.page a
unfolding memset
memset_one m p b a ha hp ne = ground arith

pub memset_at : (m : Mem) (p b : ℕ) → (memset m p b 1).page p ≡ fill b
unfolding memset
memset_at m p b = ground arith

pub take_page-cons :
    (h : ℕ) (r : Region) (rs : List Region)
    → IsRegion h r
    → take_page (r ∷ rs) ≡ some (r.phys_cur, carve page_size r rs)
unfolding take_page
take_page-cons h r rs ok = ground arith
