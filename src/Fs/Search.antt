-- ===== src/Fs/Search.antt =====
-- The loop of `fs_open` of kernel/src/fs/fs.c over the inode table.
use dz_os.Prelude.{
  ℕ, zero, suc, ◌+◌, ◌≤◌, ◌<◌, ◌≡◌, refl, sym, subst, ◌≢◌, ◌⊎◌, inl, inr, true, false, Option, none,
  some, arith, ◌==◌, Bool-cases,
}
use dz_os.Prelude.{==-eq}
use dz_os.Fs.Inode.{Inode, is_empty, scan}

module _ (inodes : ℕ → Inode) (dnode : ℕ) where
  -- an entry that is not an inode of the dnode
  abbrev pub Misses : ℕ → Type 0
  Misses j = (is_empty (inodes j).kind ≡ true) ⊎ ((inodes j).dnode ≢ dnode)

  -- what the free entry of a search may be
  abbrev pub IsFree : ℕ → ℕ → Option ℕ → Option ℕ → Type 0
  IsFree at n free none =
      (free ≡ none) × ((j : ℕ) → at ≤ j → j < at + n → is_empty (inodes j).kind ≡ false)
  IsFree at n free (some i) = (free ≡ some i) ⊎ ((i < at + n) × (is_empty (inodes i).kind ≡ true))

  abbrev pub Scanned : ℕ → ℕ → Option ℕ → ℕ ⊎ Option ℕ → Type 0
  Scanned at n free (inl i) =
      (i < at + n) × (is_empty (inodes i).kind ≡ false) × ((inodes i).dnode ≡ dnode)
  Scanned at n free (inr r) = ((j : ℕ) → at ≤ j → j < at + n → Misses j) × IsFree at n free r

  Misses-later :
      (at n : ℕ)
      → Misses at
      → ((j : ℕ) → suc at ≤ j → j < suc at + n → Misses j)
      → (j : ℕ) → at ≤ j
      → j < at + suc n
      → Misses j
  Misses-later at n h rest j low high = elim (Bool-cases (j == at)) [
    | inl eq ↦ subst Misses (sym (==-eq j at eq)) h
    | inr ne ↦ rest j (ground arith) (omega arith)
  ]

  IsFree-empty :
      (at n : ℕ) (free r : Option ℕ)
      → is_empty (inodes at).kind ≡ true
      → IsFree (suc at) n (some at) r
      → IsFree at (suc n) free r
  IsFree-empty at n free none e (h, full) = cc
  IsFree-empty at n free (some i) e (inl h) =
      let same : at ≡ i = cc in
      inr (omega (arith, same), subst (λ k. is_empty (inodes k).kind ≡ true) same e)
  IsFree-empty at n free (some i) e (inr (lt, empty)) = inr (omega arith, empty)

  IsFree-other :
      (at n : ℕ) (free r : Option ℕ)
      → is_empty (inodes at).kind ≡ false
      → IsFree (suc at) n free r
      → IsFree at (suc n) free r
  IsFree-other at n free none used (h, full) = (
    h,
    λ j low high. elim (Bool-cases (j == at)) [
      | inl eq ↦ subst (λ k. is_empty (inodes k).kind ≡ false) (sym (==-eq j at eq)) used
      | inr ne ↦ full j (ground arith) (omega arith)
    ],
  )
  IsFree-other at n free (some i) used (inl h) = inl h
  IsFree-other at n free (some i) used (inr (lt, empty)) = inr (omega arith, empty)

  Scanned-later :
      (at n : ℕ) (free from : Option ℕ) (r : ℕ ⊎ Option ℕ)
      → Misses at
      → ((r' : Option ℕ) → IsFree (suc at) n from r' → IsFree at (suc n) free r')
      → Scanned (suc at) n from r
      → Scanned at (suc n) free r
  Scanned-later at n free from (inl i) m f (lt, used, same) = (omega arith, used, same)
  Scanned-later at n free from (inr r) m f (misses, h) = (Misses-later at n m misses, f r h)

  pub scan-Scanned : (at n : ℕ) (free : Option ℕ) → Scanned at n free (scan inodes dnode at n free)
  unfolding scan
  scan-Scanned at zero none =
      (λ j low high. absurd (omega arith), (refl, λ j low high. absurd (omega arith)))
  scan-Scanned at zero (some i) = (λ j low high. absurd (omega arith), inl refl)
  scan-Scanned at (suc n) free = elim (Bool-cases (is_empty (inodes at).kind)) [
    | inl e ↦ simp e (
        Scanned-later at n free (some at) (scan inodes dnode (suc at) n (some at)) (inl e)
          (λ r h. IsFree-empty at n free r e h) (scan-Scanned (suc at) n (some at)))
    | inr used ↦ elim (Bool-cases ((inodes at).dnode == dnode)) [
      | inl hit ↦ simp (used, hit) (omega arith, refl, ==-eq (inodes at).dnode dnode hit)
      | inr other ↦
          simp (used, other)
            (Scanned-later at n free free (scan inodes dnode (suc at) n free) (inr (ground arith))
              (λ r h. IsFree-other at n free r used h) (scan-Scanned (suc at) n free))
    ]
  ]
