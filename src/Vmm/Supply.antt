-- ===== src/Vmm/Supply.antt =====
-- The calls of kernel/src/mem/mem.c as vmm.c makes them, with the links of the free list in the bytes of
-- memory, and what they promise to vmm.c.
use dz_os.Prelude.{
  ℕ, ◌+◌, ◌-◌, ◌%◌, ◌^◌, ◌≤◌, ◌<◌, ◌≡◌, refl, sym, ap, subst, ◌∙◌, ◌≢◌, ◌⊎◌, inl, inr, true, false,
  not, ◌&&◌, Option, none, some, List, [], ◌∷◌, arith, ltb, leb, ◌==◌, if◌then◌else◌, Bool-cases,
  drop, has,
}
use dz_os.Heap.Free.{get_u64, put_u64}
use dz_os.Mem.State.{Mem, Page, fill, link, Region, page_size, p2v, kfree}
use dz_os.Mem.Single.{kalloc, kcalloc, kalloc_for_page_cache}
use dz_os.Mem.Valid.{in_regions, Chain-frame, IsFreePage, IsValid, IsRegion, Regions, All-has}
use dz_os.Mem.Pages.{Handed, Allocates}
use dz_os.Mem.Kalloc.{kalloc_lem}
use dz_os.Vmm.Table.{FrameAllocator}
use dz_os.Vmm.Tree.{IsFrame}
use dz_os.Vmm.Entries.{get_u64-ext, Gives, IsFrameAllocator}

-- the static data of mem.c, and the list of the free pages, which the program does not keep
abbrev pub Stock : Type 0
Stock = Mem × List ℕ

-- the state with each page as its first word in memory
abbrev pub in_memory : (ℕ → ℕ) → Mem → Mem
in_memory m s = record s { page = λ a. link (get_u64 m a) }

-- a byte of a page behind a call
unfoldable pub page_byte : Page → ℕ → ℕ
page_byte (fill b) before = b
page_byte (link p) before = before

-- memory with the page `p` as a call has left it; 0 is none
unfoldable pub refill : ℕ → Mem → (ℕ → ℕ) → ℕ → ℕ
refill p s m x =
    if not (p == 0) && leb p x && ltb x (p + page_size) then page_byte (s.page p) (m x) else m x

-- the result of an allocation, the first free page being gone from the list
unfoldable pub supplied : ℕ × Mem → (ℕ → ℕ) → List ℕ → ℕ × (ℕ → ℕ) × Stock
supplied r m xs = (r.0, refill r.0 r.1 m, (r.1, drop 1 xs))

-- a page given back: its first word is the link
unfoldable pub given_back : Option Mem → ℕ → (ℕ → ℕ) → Mem → List ℕ → Option ((ℕ → ℕ) × Stock)
given_back none p m s xs = none
given_back (some s') p m s xs =
    some (if p == 0 then (m, (s', xs)) else (put_u64 m p s.freepages, (s', p ∷ xs)))

-- The calls for single pages, beside some for blocks of pages.
unfoldable pub mem_allocator : FrameAllocator Stock → FrameAllocator Stock
mem_allocator blocks = record blocks {
  kalloc = λ m s. supplied (kalloc (in_memory m s.0)) m s.1;
  kcalloc = λ m s. supplied (kcalloc (in_memory m s.0)) m s.1;
  kalloc_for_page_cache = λ m s. supplied (kalloc_for_page_cache (in_memory m s.0)) m s.1;
  kfree = λ p m s. given_back (kfree (in_memory m s.0) p) p m s.0 s.1;
}

-- a page that is in the free list or in a region
abbrev pub IsFree : ℕ → Stock → ℕ → Type 0
IsFree h (s, xs) t =
    (h ≤ t) × (t % page_size ≡ 0) × ((has t xs ≡ true) ⊎ (in_regions (t - h) s.regions ≡ true))

-- the allocator in order on a memory: the invariant of mem.c, and its pages within reach of an entry
pub record InOrder (h : ℕ) (m : ℕ → ℕ) (s : Stock) : Type 0 where
  pub hhdm : (s.0).hhdm_offset ≡ h
  pub valid : IsValid (in_memory m s.0) s.1
  pub near : (a : ℕ) → has a s.1 ≡ true → a < h + 2 ^ 52
  pub near_regions : (a : ℕ) → in_regions a (s.0).regions ≡ true → (a < 2 ^ 52) × (a + h < 2 ^ 64)

-- the first word of a page is outside another page
beside :
    (a t x : ℕ)
    → a % page_size ≡ 0
    → t % page_size ≡ 0
    → a ≢ t
    → a ≤ x
    → x < a + 8
    → (x < t) ⊎ (t + 4096 ≤ x)
beside a t x aa at ne low high = ground arith

has-cons : (a x : ℕ) (xs : List ℕ) → has a xs ≡ true → has a (x ∷ xs) ≡ true
has-cons a x xs h = ground arith

module _ (h : ℕ) where
  IsFree-IsFrame : (m : ℕ → ℕ) (s : Stock) (t : ℕ) → InOrder h m s → IsFree h s t → IsFrame h t
  IsFree-IsFrame m s t o (low, al, inl listed) =
      let p = All-has (IsFreePage (s.0).hhdm_offset (s.0).regions) t s.1 o.valid.pages listed in
      let near = o.near t listed in
      let pos = o.valid.hhdm_pos in
      let is = o.hhdm in
      record {
        ne_null = omega (arith, low, pos, is);
        above = low;
        near = near;
        aligned = al;
        word = omega (arith, p.word, al);
      }
  IsFree-IsFrame m s t o (low, al, inr region) =
      let near = o.near_regions (t - h) region in
      let pos = o.valid.hhdm_pos in
      let is = o.hhdm in
      record {
        ne_null = omega (arith, low, pos, is);
        above = low;
        near = omega (arith, near.0, low);
        aligned = al;
        word = omega (arith, near.1, low, al);
      }

  -- the free list survives a change of memory outside its pages
  kept-IsValid :
      (m m' : ℕ → ℕ) (s : Mem) (xs : List ℕ) (t : ℕ)
      → t % page_size ≡ 0
      → has t xs ≡ false
      → ((x : ℕ) → (x < t) ⊎ (t + 4096 ≤ x) → m' x ≡ m x)
      → IsValid (in_memory m s) xs
      → IsValid (in_memory m' s) xs
  kept-IsValid m m' s xs t al out same v = record {
    hhdm_pos = v.hhdm_pos;
    hhdm_aligned = v.hhdm_aligned;
    hhdm_word = v.hhdm_word;
    chain = Chain-frame s.freepages xs v.chain (λ a listed.
        ap link (get_u64-ext m m' a (λ x low high. same x (side a x listed low high))));
    pages = v.pages;
    regions = v.regions;
  }
    where
      side : (a x : ℕ) → has a xs ≡ true → a ≤ x → x < a + 8 → (x < t) ⊎ (t + 4096 ≤ x)
      side a x listed low high =
          let p = All-has (IsFreePage s.hhdm_offset s.regions) a xs v.pages listed in
          let ne : a ≢ t = λ e. cc (subst (λ k. has k xs ≡ true) e listed, out) in
          beside a t x p.aligned al ne low high

  not_listed : (s : Stock) (t : ℕ) → IsFrame h t → (IsFree h s t → ⊥) → has t s.1 ≡ false
  not_listed s t f used = elim (Bool-cases (has t s.1)) [
    | inl listed ↦ absurd (used (f.above, f.aligned, inl listed))
    | inr out ↦ out
  ]

  stays :
      (m m' : ℕ → ℕ) (s : Stock) (t : ℕ)
      → InOrder h m s
      → IsFrame h t
      → (IsFree h s t → ⊥)
      → ((x : ℕ) → (x < t) ⊎ (t + 4096 ≤ x) → m' x ≡ m x)
      → InOrder h m' s
  stays m m' s t o f used same = record {
    hhdm = o.hhdm;
    valid = kept-IsValid m m' s.0 s.1 t f.aligned (not_listed s t f used) same o.valid;
    near = o.near;
    near_regions = o.near_regions;
  }

  refill_outside :
      (p : ℕ) (s : Mem) (m : ℕ → ℕ) (x : ℕ) → (x < p) ⊎ (p + 4096 ≤ x) → refill p s m x ≡ m x
  unfolding refill
  refill_outside p s m x out = ground arith

  -- a page handed out of the allocator
  Handed-Gives :
      (m : ℕ → ℕ) (s : Stock) (r : ℕ × Mem) (b : ℕ)
      → InOrder h m s
      → IsFree h s r.0
      → ((a : ℕ) → has a (drop 1 s.1) ≡ true → has a s.1 ≡ true)
      → Handed (in_memory m s.0) r.1 (drop 1 s.1) r.0 b
      → Gives h (InOrder h) (IsFree h) m s (supplied r m s.1)
  unfolding supplied
  Handed-Gives m s r b o free fewer d = record {
    page = λ _. (IsFree-IsFrame m s r.0 o free, free);
    outside = refill_outside r.0 r.1 m;
    fewer = gone;
    ok = record {
      hhdm = d.hhdm ∙ o.hhdm;
      valid = record {
        hhdm_pos = d.valid.hhdm_pos;
        hhdm_aligned = d.valid.hhdm_aligned;
        hhdm_word = d.valid.hhdm_word;
        chain = Chain-frame (r.1).freepages (drop 1 s.1) d.valid.chain same_link;
        pages = d.valid.pages;
        regions = d.valid.regions;
      };
      near = λ a listed. o.near a (fewer a listed);
      near_regions = λ a region. o.near_regions a (d.less a region);
    };
  }
    where
      same_link :
          (a : ℕ) → has a (drop 1 s.1) ≡ true → link (get_u64 (refill r.0 r.1 m) a) ≡ (r.1).page a
      same_link a listed =
          let p =
            All-has (IsFreePage (r.1).hhdm_offset (r.1).regions) a (drop 1 s.1) d.valid.pages
              listed in
          let ne : a ≢ r.0 = λ e. cc (subst (λ k. has k (drop 1 s.1) ≡ true) e listed, d.taken) in
          ap link (
            get_u64-ext m (refill r.0 r.1 m) a (λ x low high.
              refill_outside r.0 r.1 m x (beside a r.0 x p.aligned d.aligned ne low high)))
          ∙ sym (d.same a p.aligned ne)

      gone : (t : ℕ) → IsFree h (r.1, drop 1 s.1) t → IsFree h s t × (t ≢ r.0)
      gone t (low, al, inl listed) = (
        (low, al, inl (fewer t listed)),
        λ e. cc (subst (λ k. has k (drop 1 s.1) ≡ true) e listed, d.taken),
      )
      gone t (low, al, inr region) = (
        (low, al, inr (d.less (t - h) region)),
        λ e. cc (
          subst (λ k. in_regions (k - h) (r.1).regions ≡ true) e region,
          subst (λ k. in_regions (r.0 - k) (r.1).regions ≡ false) (d.hhdm ∙ o.hhdm) d.apart,
        ),
      )

  -- NULL, with the allocator unchanged
  null-Gives :
      (m : ℕ → ℕ) (s : Mem)
      → InOrder h m (s, [])
      → Gives h (InOrder h) (IsFree h) m (s, []) (supplied (0, in_memory m s) m [])
  unfolding supplied refill
  null-Gives m s o = record {
    page = λ ne. absurd (ne refl);
    outside = λ x out. refl;
    fewer = λ t f. (f, λ e. omega (arith, e, f.0, o.valid.hhdm_pos, o.hhdm));
    ok = record {
      hhdm = o.hhdm;
      valid = record {
        hhdm_pos = o.valid.hhdm_pos;
        hhdm_aligned = o.valid.hhdm_aligned;
        hhdm_word = o.valid.hhdm_word;
        chain = o.valid.chain;
        pages = o.valid.pages;
        regions = o.valid.regions;
      };
      near = o.near;
      near_regions = o.near_regions;
    };
  }

  kalloc-Gives :
      (b c : ℕ) (m : ℕ → ℕ) (s : Mem) (xs : List ℕ) (rs : List Region) (r : ℕ × Mem)
      → s.regions ≡ rs
      → InOrder h m (s, xs)
      → Allocates b c (in_memory m s) xs rs r
      → Gives h (InOrder h) (IsFree h) m (s, xs) (supplied r m xs)
  kalloc-Gives b c m s (x ∷ xs) rs r is o (at, d) =
      Handed-Gives m (s, x ∷ xs) r b o (subst (IsFree h (s, x ∷ xs)) (sym at) first)
        (λ a i. has-cons a x xs i) d
    where
      first : IsFree h (s, x ∷ xs) x
      first =
          let p = (o.valid.pages).0 in
          (subst (λ k. k ≤ x) o.hhdm p.above, p.aligned, inl (ground arith))
  kalloc-Gives b c m s [] (r' ∷ rs) r is o (at, d) =
      Handed-Gives m (s, []) r c o (subst (IsFree h (s, [])) (sym at) first) (λ a i. cc) d
    where
      ok : IsRegion s.hhdm_offset r'
      ok = (subst (Regions s.hhdm_offset) is o.valid.regions).0

      word : p2v (in_memory m s) r'.phys_cur ≡ r'.phys_cur + h
      word = let same = o.hhdm in omega (arith, ok.nonempty, ok.mapped, same)

      back : r'.phys_cur + h - h ≡ r'.phys_cur
      back = omega arith

      here : in_regions r'.phys_cur (r' ∷ rs) ≡ true
      here = ground (arith, ok.nonempty)

      first : IsFree h (s, []) (p2v (in_memory m s) r'.phys_cur)
      first =
          let al = subst (λ k. k % page_size ≡ 0) o.hhdm o.valid.hhdm_aligned in
          subst (IsFree h (s, [])) (sym word) (
            omega arith,
            omega (arith, al, ok.cur_aligned),
            inr (
                subst (λ k. in_regions k s.regions ≡ true) (sym back)
                  (subst (λ k. in_regions r'.phys_cur k ≡ true) (sym is) here)),
          )
  kalloc-Gives b c m s [] [] r is o (at, same) =
      subst (λ k. Gives h (InOrder h) (IsFree h) m (s, []) (supplied k m []))
        (sym (λ i. (at i, same i))) (null-Gives m s o)

  -- What vmm.c relies on holds of the allocator of mem.c.
  pub mem-IsFrameAllocator :
      (blocks : FrameAllocator Stock)
      → h % 4096 ≡ 0
      → IsFrameAllocator (mem_allocator blocks) h (InOrder h) (IsFree h)
  unfolding mem_allocator
  mem-IsFrameAllocator blocks aligned = record {
    kalloc_gives = λ m s o.
        kalloc-Gives 0 2 m s.0 s.1 (s.0).regions (kalloc (in_memory m s.0)) refl o
          (kalloc_lem (in_memory m s.0) s.1 o.valid);
    elsewhere = stays;
    hhdm_aligned = aligned;
  }
