-- ===== src/Mem/Kfree.antt =====
-- `kfree` of kernel/src/mem/mem.c on a valid state, and the round trip with `kalloc`.
use dz_os.Prelude.{
  ℕ, ◌%◌, ◌^◌, ◌<◌, ◌≡◌, refl, subst, ◌≢◌, false, none, some, List, ◌∷◌, arith, update, has,
}
use mathlib.Core.Logic.{◌↔◌}
use dz_os.Mem.State.{Mem, link, page_size, next_of, push_free_page, kfree}
use dz_os.Mem.Single.{kalloc}
use dz_os.Mem.Valid.{Chain, IsFreePage, IsValid, Chain-frame}
use dz_os.Mem.Pages.{Handed}
use dz_os.Mem.Kalloc.{kalloc_lem}

-- The pages in use that may be freed: not NULL, whole pages of the direct map, not free already.
pub record IsUsed (m : Mem) (xs : List ℕ) (p : ℕ) : Type 0 where
  pub ne_null : p ≢ 0
  pub page : IsFreePage m.hhdm_offset m.regions p
  pub used : has p xs ≡ false

module _ (m : Mem) (xs : List ℕ) (p : ℕ) (v : IsValid m xs) (u : IsUsed m xs p) where
  kfree-push : kfree m p ≡ some (push_free_page m p)
  unfolding kfree push_free_page
  kfree-push = ground (arith, u.page.aligned, u.page.above, u.page.word, v.hhdm_aligned)

  push-IsValid : IsValid (push_free_page m p) (p ∷ xs)
  unfolding push_free_page next_of
  push-IsValid = record {
    hhdm_pos = v.hhdm_pos;
    hhdm_aligned = v.hhdm_aligned;
    hhdm_word = v.hhdm_word;
    chain = (refl, u.ne_null, u.used, rest);
    pages = (u.page, v.pages);
    regions = v.regions;
  }
    where
      changed : (update m.page p (link m.freepages)) p ≡ link m.freepages
      changed = ground arith

      rest :
          Chain
            (update m.page p (link m.freepages))
            (next_of (update m.page p (link m.freepages) p))
            xs
      rest = rw changed (
          Chain-frame {pg = m.page} {pg' = update m.page p (link m.freepages)} m.freepages xs
            v.chain (λ a i. ground (arith, u.used)))

  -- Freeing a used page of a valid state succeeds; the page becomes the first free one, and the
  -- regions and all other pages stay as they are.
  pub kfree_lem :
      (m' : Mem) × (kfree m p ≡ some m')
      × IsValid m' (p ∷ xs)
      × (m'.regions ≡ m.regions)
      × ((a : ℕ) → a ≢ p → m'.page a ≡ m.page a)
  unfolding push_free_page
  kfree_lem = (push_free_page m p, kfree-push, push-IsValid, refl, λ a ne. ground arith)

  -- `kalloc` after `kfree` hands the freed page out again, zeroed, with the free list as it was.
  pub kalloc-kfree :
      (m' : Mem) × (kfree m p ≡ some m') × ((kalloc m').0 ≡ p) × Handed m' (kalloc m').1 xs p 0
  kalloc-kfree =
      let (m', freed, valid, _, _) = kfree_lem in
      let out = kalloc_lem m' (p ∷ xs) valid in
      (m', freed, out.0, subst (λ q. Handed m' (kalloc m').1 xs q 0) out.0 out.1)

-- On a valid state `kfree` panics exactly at the addresses other than NULL that start no page.
pub kfree-panic :
    (m : Mem) (xs : List ℕ) (p : ℕ)
    → IsValid m xs
    → p < 2 ^ 64
    → (kfree m p ≡ none) ↔ ((p ≢ 0) × (p % page_size ≢ 0))
unfolding kfree
kfree-panic m xs p v w = (
  λ h. ground (arith, v.hhdm_aligned, v.hhdm_word),
  λ h. ground (arith, v.hhdm_aligned, v.hhdm_word),
)
