-- ===== src/Mem/Valid.antt =====
-- The invariant of the page allocator, stated with the list `xs` of the free pages.
use dz_os.Prelude.{
  ℕ, ◌+◌, ◌-◌, ◌%◌, ◌^◌, ◌≤◌, ◌<◌, ◌≡◌, ◌≢◌, Bool, true, false, List, [], ◌∷◌, ltb, leb, ◌&&◌, ◌||◌,
  has, All, arith, ◌==◌, Bool-cases, inl, inr, subst,
}
use dz_os.Mem.State.{Mem, Region, Page, page_size, next_of}

-- From `p` the links lead through the distinct pages `xs` to NULL.
abbrev pub Chain : (ℕ → Page) → ℕ → List ℕ → Type 0
Chain pg p [] = p ≡ 0
Chain pg p (x ∷ xs) = (p ≡ x) × (x ≢ 0) × (has x xs ≡ false) × Chain pg (next_of (pg x)) xs

-- whether a physical address lies in a region
abbrev pub within : ℕ → Region → Bool
within a r = leb r.phys_cur a && ltb a r.phys_end

abbrev pub in_regions : ℕ → List Region → Bool
in_regions a [] = false
in_regions a (r ∷ rs) = within a r || in_regions a rs

-- a region with a page left, which the direct map reaches
pub record IsRegion (hhdm : ℕ) (r : Region) : Type 0 where
  pub nonempty : r.phys_cur < r.phys_end
  pub cur_aligned : r.phys_cur % page_size ≡ 0
  pub end_aligned : r.phys_end % page_size ≡ 0
  pub mapped : r.phys_end + hhdm < 2 ^ 64

-- regions that do not overlap
abbrev pub Regions : ℕ → List Region → Type 0
Regions hhdm [] = Unit
Regions hhdm (r ∷ rs) =
    IsRegion hhdm r × ((a : ℕ) → within a r ≡ true → in_regions a rs ≡ false) × Regions hhdm rs

-- a free page: aligned, in the direct map, and in no region
pub record IsFreePage (hhdm : ℕ) (rs : List Region) (a : ℕ) : Type 0 where
  pub above : hhdm ≤ a
  pub aligned : a % page_size ≡ 0
  pub word : a < 2 ^ 64
  pub apart : in_regions (a - hhdm) rs ≡ false

pub record IsValid (m : Mem) (xs : List ℕ) : Type 0 where
  pub hhdm_pos : 0 < m.hhdm_offset
  pub hhdm_aligned : m.hhdm_offset % page_size ≡ 0
  pub hhdm_word : m.hhdm_offset < 2 ^ 64
  pub chain : Chain m.page m.freepages xs
  pub pages : All (IsFreePage m.hhdm_offset m.regions) xs
  pub regions : Regions m.hhdm_offset m.regions

-- A chain survives any change that spares its own pages.
pub Chain-frame :
    {pg pg' : ℕ → Page} (p : ℕ) (xs : List ℕ)
    → Chain pg p xs
    → ((a : ℕ) → has a xs ≡ true → pg' a ≡ pg a)
    → Chain pg' p xs
Chain-frame p [] c same = c
Chain-frame {pg} {pg'} p (x ∷ xs) c same =
    let here : pg' x ≡ pg x = same x (ground arith) in
    let rest : Chain pg' (next_of (pg x)) xs =
      Chain-frame (next_of (pg x)) xs c.3 (λ a i. same a (ground arith)) in
    (c.0, c.1, c.2, rw here rest)

-- what holds of all pages holds of each
pub All-has : (P : ℕ → Type 0) (a : ℕ) (xs : List ℕ) → All P xs → has a xs ≡ true → P a
All-has P a [] all h = cc
All-has P a (x ∷ xs) all h = elim (Bool-cases (a == x)) [
  | inl e ↦ let e' : x ≡ a = ground arith in subst P e' all.0
  | inr n ↦ All-has P a xs all.1 (ground arith)
]

pub All-map : (P Q : ℕ → Type 0) (xs : List ℕ) → ((a : ℕ) → P a → Q a) → All P xs → All Q xs
All-map P Q [] f all = tt
All-map P Q (x ∷ xs) f all = (f x all.0, All-map P Q xs f all.1)
