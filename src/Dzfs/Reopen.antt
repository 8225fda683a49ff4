-- ===== src/Dzfs/Reopen.antt =====
-- Opening a name in a folder, and opening it again (`dzfs_open_relative` of kernel/src/fs/dzfs.c).
use dz_os.Prelude.{
  ℕ, ◌+◌, ◌*◌, ◌^◌, ◌≤◌, ◌≡◌, refl, sym, ap, subst, ◌∙◌, ◌≢◌, inl, inr, true, false, some, List, [],
  ◌∷◌, arith, ◌==◌, if◌then◌else◌, Bool-cases, ==-ne, length, get_or, take, drop,
}
use dz_os.Prelude.{get_or, drop, take, ==-ne, ==-eq}
use dz_os.Dzfs.Block.{Block, BlockDevice, IsBlockDevice, DzfsState, DzfsError}
use dz_os.Dzfs.Io.{Result, Io, is_ok, if_false, if_true, value_or}
use dz_os.Dzfs.Create.{IsKept, create_entry-search}
use dz_os.Dzfs.Name.{IsName, part_len-name, last_part-name, take-length}
use dz_os.Dzfs.Open.{
  path_next_part_len, dot, slash, names_folder, create_entry, search_folder, skip_dots,
  after_search, traverse, o_create, o_dir, open_from, open_after_dots, open_in_folder,
  dzfs_open_relative,
}

whole : (name : List ℕ) → IsName name → take (path_next_part_len name) name ≡ name
whole name v = ap (λ n. take n name) (part_len-name name v.characters) ∙ take-length name

names_folder-name : (name : List ℕ) → IsName name → names_folder name ≡ false
unfolding names_folder
names_folder-name [] v = absurd (omega (arith, v.some_character))
names_folder-name (c ∷ []) v = ==-ne c dot v.no_dot
names_folder-name (c ∷ d ∷ name) v = refl

module _ {D : Type 0} (dev : BlockDevice D) (fs : DzfsState) where
  skip_dots-name :
      (name : List ℕ) (at : ℕ) (disk : D)
      → get_or name 0 0 ≢ dot
      → skip_dots dev at name disk ≡ Result.ok (at, name)
  unfolding skip_dots
  skip_dots-name [] at disk h = refl
  skip_dots-name (a ∷ []) at disk h = refl
  skip_dots-name (a ∷ b ∷ []) at disk h = rw (==-ne a dot h) refl
  skip_dots-name (a ∷ b ∷ c ∷ name) at disk h = rw (==-ne a dot h) refl

  -- what opening a name comes to, given what the search of the folder returns
  abbrev opened : List ℕ → ℕ → Block → ℕ → Result ℕ → Io D (ℕ × ℕ)
  opened name parent folder flags (Result.failed e) disk = (Result.failed e, disk)
  opened name parent folder flags (Result.ok found) disk =
      if found == 0
      then (if o_create flags
          then create_entry dev fs name parent folder (o_dir flags) disk
          else (Result.failed DzfsError.err_not_found, disk))
      else (Result.ok (found, parent), disk)

  after_search-name :
      (name : List ℕ) (parent : ℕ) (folder : Block) (flags : ℕ) (r : Result ℕ) (disk : D)
      (next : ℕ → Block → Io D (ℕ × ℕ))
      → IsName name
      → after_search dev fs name parent folder flags r next disk
        ≡ opened name parent folder flags r disk
  unfolding after_search
  after_search-name name parent folder flags (Result.failed e) disk next v = refl
  after_search-name name parent folder flags (Result.ok found) disk next v =
      elim (Bool-cases (o_create flags)) [
        | inl on ↦ rw (last_part-name name v.characters, whole name v, on) refl
        | inr off ↦ rw (last_part-name name v.characters, off) refl
      ]

  open_relative-name :
      (name : List ℕ) (parent : ℕ) (folder : Block) (flags : ℕ) (disk : D)
      → IsName name
      → parent ≢ 0
      → dev.read_block parent disk ≡ some folder
      → dzfs_open_relative dev fs name parent flags disk
        ≡ opened name parent folder flags (search_folder dev folder name 0 957 disk) disk
  unfolding dzfs_open_relative open_in_folder open_after_dots open_from traverse
  open_relative-name [] parent folder flags disk v nz is = absurd (omega (arith, v.some_character))
  open_relative-name (c ∷ name) parent folder flags disk v nz is =
      rw
        (
          ==-ne c slash v.characters.0.1,
          ==-ne parent 0 nz,
          skip_dots-name (c ∷ name) parent disk v.no_dot,
          is,
          names_folder-name (c ∷ name) v,
          whole (c ∷ name) v,
        )
        (after_search-name (c ∷ name) parent folder flags
          (search_folder dev folder (c ∷ name) 0 957 disk) disk
          (λ found b.
            traverse dev (length name) fs (drop (path_next_part_len (c ∷ name) + 1) (c ∷ name))
              found b flags)
          v)

  module _ (laws : IsBlockDevice dev) where
    opened-again :
        (name : List ℕ) (parent n : ℕ) (folder : Block) (flags : ℕ) (disk after : D) (r : ℕ × ℕ)
        (found : Result ℕ)
        → fs.free_bitmap_blocks * 32768 ≤ 2 ^ 32
        → IsName name
        → IsKept dev laws fs disk parent folder n
        → dev.read_block parent disk ≡ some folder
        → search_folder dev folder name 0 957 disk ≡ found
        → opened name parent folder flags found disk ≡ (Result.ok r, after)
        → (r.1 ≡ parent)
          × (r.0 ≢ 0)
          × (added : Block) × (dev.read_block parent after ≡ some added)
          × (search_folder dev added name 0 957 after ≡ Result.ok r.0)
    opened-again name parent n folder flags disk after r (Result.failed e) fits v k is s h =
        let bad : false ≡ true = ap (λ p. is_ok p.0) h in absurd (ground (arith, bad))
    opened-again name parent n folder flags disk after r (Result.ok found) fits v k is s h =
        elim (Bool-cases (found == 0)) [
          | inl e ↦
              let missed = s ∙ ap Result.ok (==-eq found 0 e) in
              let h0 = if_true (found == 0) _ _ _ e h in
              elim (Bool-cases (o_create flags)) [
                | inl on ↦
                    create_entry-search dev laws fs name parent n folder (o_dir flags) disk after r
                      fits v k missed (if_true (o_create flags) _ _ _ on h0)
                | inr off ↦
                    let bad : false ≡ true =
                      ap (λ p. is_ok p.0) (if_false (o_create flags) _ _ _ off h0) in
                    absurd (ground (arith, bad))
              ]
          | inr ne ↦
              let same = if_false (found == 0) _ _ _ ne h in
              let at : found ≡ r.0 =
                ap (λ (p : Result (ℕ × ℕ) × D). (value_or {A = ℕ × ℕ} (0, 0) p.0).0) same in
              let index : parent ≡ r.1 =
                ap (λ (p : Result (ℕ × ℕ) × D). (value_or {A = ℕ × ℕ} (0, 0) p.0).1) same in
              let end : disk ≡ after = ap (λ p. p.1) same in
              (
                sym index,
                λ z. absurd (ground (arith, at, z)),
                folder,
                subst (λ d. dev.read_block parent d ≡ some folder) end is,
                subst (λ d. search_folder dev folder name 0 957 d ≡ Result.ok r.0) end
                    (s ∙ ap Result.ok at),
              )
        ]

    -- A name that `dzfs_open_relative` has opened or created in a folder is found again: opening it once
    -- more, without any flag, returns the same dnode and the same parent. The conditions: the folder is
    -- read, at a block other than 0, and has no gap; it and its entries are taken in the bitmaps; its entries
    -- lie behind the bitmaps and are not the folder itself; the bitmaps cover at most 2 ^ 32 blocks; and the
    -- name is one part of 1 to 254 characters without a dot in front.
    pub open_relative-open_relative :
        (name : List ℕ) (parent n : ℕ) (folder : Block) (flags : ℕ) (disk after : D) (r : ℕ × ℕ)
        → fs.free_bitmap_blocks * 32768 ≤ 2 ^ 32
        → IsName name
        → parent ≢ 0
        → dev.read_block parent disk ≡ some folder
        → IsKept dev laws fs disk parent folder n
        → dzfs_open_relative dev fs name parent flags disk ≡ (Result.ok r, after)
        → dzfs_open_relative dev fs name parent 0 after ≡ (Result.ok r, after)
    open_relative-open_relative name parent n folder flags disk after r fits v nz is k e =
        let first = sym (open_relative-name name parent folder flags disk v nz is) ∙ e in
        let got =
          opened-again name parent n folder flags disk after r
            (search_folder dev folder name 0 957 disk) fits v k is refl first in
        open_relative-name name parent got.2 0 after v nz got.3
        ∙ (rw (got.4, ==-ne r.0 0 got.1) (ap (λ p. (Result.ok (r.0, p), after)) (sym got.0)))
