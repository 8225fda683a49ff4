-- ===== src/Mem/Kalloc.antt =====
-- `kalloc`, `kalloc_for_page_cache`, `kcalloc` and `kfree` of kernel/src/mem/mem.c on a valid state.
use dz_os.Prelude.{
  sym, ◌∙◌, Bool, not, ◌&&◌, ℕ, ◌-◌, ◌%◌, ◌≡◌, refl, ap, subst, ◌≢◌, true, false, List, [], ◌∷◌,
  arith, ◌==◌, if◌then◌else◌, All, has,
}
use dz_os.Mem.State.{Mem, Region, page_size, p2v, next_of, memset, pop_free_page}
use dz_os.Mem.Single.{
  carve, take_page, alloc_from_regions_for_page_cache, kalloc, kcalloc, fill_from_regions,
}
use dz_os.Mem.Valid.{
  Chain, in_regions, IsRegion, Regions, IsFreePage, IsValid, Chain-frame, All-has,
}
use dz_os.Mem.Pages.{
  carve-Regions, carve-Carved, Carved, in_block, Handed, Allocates, memset_one, memset_at,
  take_page-cons,
}

-- Filling a page that is not free leaves the free list alone.
memset-Chain :
    (m : Mem) (p b q : ℕ) (rs : List Region) (xs : List ℕ)
    → p % page_size ≡ 0
    → has p xs ≡ false
    → All (IsFreePage m.hhdm_offset rs) xs
    → Chain m.page q xs
    → Chain (memset m p b 1).page q xs
memset-Chain m p b q rs xs ap out pages c =
    Chain-frame q xs c (λ a i. memset_one m p b a (aligned a i) ap (apart a i))
  where
    aligned : (a : ℕ) → has a xs ≡ true → a % page_size ≡ 0
    aligned a i = (All-has (IsFreePage m.hhdm_offset rs) a xs pages i).aligned

    apart : (a : ℕ) → has a xs ≡ true → a ≢ p
    apart a i e = cc (subst (λ k. has k xs ≡ true) e i)

abbrev popped : Mem → Mem
popped m = record m { freepages = next_of (m.page m.freepages) }

-- A page taken off the free list and filled.
pop-Handed :
    (m : Mem) (x b : ℕ) (xs : List ℕ)
    → IsValid m (x ∷ xs)
    → Handed m (memset (popped m) x b 1) xs x b
unfolding memset
pop-Handed m x b xs v = record {
  ne_null = v.chain.1;
  aligned = v.pages.0.aligned;
  valid = record {
    hhdm_pos = v.hhdm_pos;
    hhdm_aligned = v.hhdm_aligned;
    hhdm_word = v.hhdm_word;
    chain = memset-Chain (popped m) x b _ m.regions xs v.pages.0.aligned v.chain.2 v.pages.1 rest;
    pages = v.pages.1;
    regions = v.regions;
  };
  taken = v.chain.2;
  apart = v.pages.0.apart;
  filled = memset_at (popped m) x b;
  same = λ a ha ne. memset_one (popped m) x b a ha v.pages.0.aligned ne;
  hhdm = refl;
  less = λ a left. left;
}
  where
    rest : Chain m.page (next_of (m.page m.freepages)) xs
    rest = rw v.chain.0 v.chain.3

carved : Mem → Region → List Region → Mem
carved m r rs = record m { regions = carve page_size r rs }

-- A page carved off the first region and filled.
carve-Handed :
    (m : Mem) (r : Region) (rs : List Region) (b : ℕ)
    → Regions m.hhdm_offset (r ∷ rs)
    → m.regions ≡ r ∷ rs
    → IsValid m []
    → Handed m (memset (carved m r rs) (p2v m r.phys_cur) b 1) [] (p2v m r.phys_cur) b
unfolding carved memset
carve-Handed m r rs b ok is v = record {
  ne_null = omega arith;
  aligned = omega arith;
  valid = record {
    hhdm_pos = v.hhdm_pos;
    hhdm_aligned = v.hhdm_aligned;
    hhdm_word = v.hhdm_word;
    chain = v.chain;
    pages = tt;
    regions =
        carve-Regions m.hhdm_offset page_size r rs ok (omega arith) (omega arith) (omega arith);
  };
  taken = refl;
  apart = gone;
  filled = memset_at (carved m r rs) (p2v m r.phys_cur) b;
  same = λ a ha ne. memset_one (carved m r rs) (p2v m r.phys_cur) b a ha (omega arith) ne;
  hhdm = refl;
  less = λ a left. rw is (left_before a (rest a) left);
}
  where
    at : p2v m r.phys_cur - m.hhdm_offset ≡ r.phys_cur
    at = omega arith

    rest : Carved r.phys_cur page_size (r ∷ rs) (carve page_size r rs)
    rest = carve-Carved m.hhdm_offset page_size r rs ok (omega arith) (omega arith) (omega arith)

    both : (b c : Bool) → (b && c) ≡ true → b ≡ true
    both true c h = refl
    both false c h = cc

    left_before :
        (a : ℕ)
        → in_regions a (carve page_size r rs)
          ≡ (in_regions a (r ∷ rs) && not (in_block r.phys_cur page_size a))
        → in_regions a (carve page_size r rs) ≡ true
        → in_regions a (r ∷ rs) ≡ true
    left_before a e left =
        both (in_regions a (r ∷ rs)) (not (in_block r.phys_cur page_size a)) (sym e ∙ left)

    gone : in_regions (p2v m r.phys_cur - m.hhdm_offset) (carve page_size r rs) ≡ false
    gone = rw at (
        rw
          (carve-Carved m.hhdm_offset page_size r rs ok (omega arith) (omega arith) (omega arith)
            r.phys_cur)
          (ground arith))

-- `kalloc` and `kcalloc` in one: a page of the free list is filled with `b`, a fresh one with `c`.
either : ℕ → ℕ → Mem → ℕ × Mem
either b c m =
    let (p, m') = pop_free_page m in
    if p == 0
    then fill_from_regions c (alloc_from_regions_for_page_cache m')
    else (p, memset m' p b 1)

either_pop :
    (b c : ℕ) (m : Mem) (x : ℕ)
    → m.freepages ≡ x
    → x ≢ 0
    → either b c m ≡ (x, memset (popped m) x b 1)
unfolding either pop_free_page
either_pop b c m x e ne = ground arith

either_carve :
    (b c : ℕ) (m : Mem) (r : Region) (rs : List Region)
    → m.freepages ≡ 0
    → m.regions ≡ r ∷ rs
    → IsRegion m.hhdm_offset r
    → p2v m r.phys_cur ≢ 0
    → either b c m ≡ (p2v m r.phys_cur, memset (carved m r rs) (p2v m r.phys_cur) c 1)
unfolding either pop_free_page alloc_from_regions_for_page_cache carved
either_carve b c m r rs e0 e ok ne = ground (arith, take_page-cons m.hhdm_offset r rs ok)

either_null : (b c : ℕ) (m : Mem) → m.freepages ≡ 0 → m.regions ≡ [] → either b c m ≡ (0, m)
unfolding either pop_free_page alloc_from_regions_for_page_cache take_page
either_null b c m e0 e = ground arith

either-Allocates :
    (b c : ℕ) (m : Mem) (xs : List ℕ) (rs : List Region)
    → m.regions ≡ rs
    → IsValid m xs
    → Allocates b c m xs rs (either b c m)
either-Allocates b c m (x ∷ xs) rs e v =
    rw (either_pop b c m x v.chain.0 v.chain.1) (refl, pop-Handed m x b xs v)
either-Allocates b c m [] (r ∷ rs) e v =
    let ok : Regions m.hhdm_offset (r ∷ rs) = rw e at v.regions in
    let handed = carve-Handed m r rs c ok e v in
    rw (either_carve b c m r rs v.chain e ok.0 handed.ne_null) (refl, handed)
either-Allocates b c m [] [] e v = rw (either_null b c m v.chain e) (refl, refl)

module _ (m : Mem) (xs : List ℕ) (v : IsValid m xs) where
  -- On a valid state `kalloc` hands out the first page of the free list, filled with 0, or else the
  -- first page of the regions, filled with 2, or NULL when there is neither; the state stays valid
  -- and no other page changes.
  pub kalloc_lem : Allocates 0 2 m xs m.regions (kalloc m)
  unfolding kalloc either
  kalloc_lem = either-Allocates 0 2 m xs m.regions refl v

  -- On a valid state `kcalloc` hands out the page that `kalloc` would, filled with 0 in both cases, and
  -- the state stays valid.
  pub kcalloc_lem : Allocates 0 0 m xs m.regions (kcalloc m)
  unfolding kcalloc either
  kcalloc_lem = either-Allocates 0 0 m xs m.regions refl v
