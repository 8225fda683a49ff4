-- ===== src/Dzfs/Traverse.antt =====
-- The traversal of `dzfs_open_relative` (kernel/src/fs/dzfs.c): it ends, and only a creation writes.
use dz_os.Prelude.{
  ℕ, zero, suc, ◌+◌, ◌-◌, ◌≤◌, ◌<◌, ◌≡◌, refl, inl, inr, false, Option, none, some, List, [], ◌∷◌,
  arith, ◌==◌, Bool-cases, length, take, drop,
}
use dz_os.Prelude.{drop, take, is_some}
use dz_os.Dzfs.Block.{Block, BlockDevice, DzfsState, dzfs_max_dir_contents, header_type}
use dz_os.Dzfs.Io.{Result, Io}
use dz_os.Dzfs.Open.{
  path_next_part_len, path_last_part, o_create, search_folder, descend, after_search, traverse,
  names_folder, open_from, open_after_dots, open_in_folder, open_rooted, dzfs_open_relative,
  skip_dots, slash,
}

part_len-length : (path : List ℕ) → path_next_part_len path ≤ length path
unfolding path_next_part_len
part_len-length [] = omega arith
part_len-length (c ∷ path) = ground (arith, part_len-length path)

pub length-drop : (n : ℕ) (xs : List ℕ) → length (drop n xs) ≡ length xs - n
length-drop zero xs = omega arith
length-drop (suc n) [] = omega arith
length-drop (suc n) (x ∷ xs) = omega (arith, length-drop n xs)

module _ {D : Type 0} (dev : BlockDevice D) (fs : DzfsState) where
  -- the rest of a round looks at its continuation only below the last part
  after_search-ext :
      (path : List ℕ) (index flags : ℕ) (folder : Block) (found : Result ℕ) (disk : D)
      (f g : ℕ → Block → Io D (ℕ × ℕ))
      → (path_last_part path ≡ false → (r : ℕ) (b : Block) → f r b disk ≡ g r b disk)
      → after_search dev fs path index folder flags found f disk
        ≡ after_search dev fs path index folder flags found g disk
  unfolding after_search descend
  after_search-ext path index flags folder (Result.failed e) disk f g same = refl
  after_search-ext path index flags folder (Result.ok r) disk f g same =
      elim (Bool-cases (path_last_part path)) [
        | inl last ↦ rw last refl
        | inr more ↦ rw (descend-ext (dev.read_block r disk) (same more r)) refl
      ]
    where
      descend-ext :
          (b : Option Block)
          → ((b : Block) → f r b disk ≡ g r b disk)
          → descend dev b (f r) disk ≡ descend dev b (g r) disk
      descend-ext none e = refl
      descend-ext (some b) e = rw (e b) refl

  -- The traversal ends: it returns the same on every amount of fuel from the path's length on, so that the
  -- fuel that `dzfs_open_relative` gives it never runs out.
  pub traverse-fuel :
      (m n : ℕ) (path : List ℕ) (index flags : ℕ) (folder : Block) (disk : D)
      → 0 < length path
      → length path ≤ m
      → length path ≤ n
      → traverse dev m fs path index folder flags disk
        ≡ traverse dev n fs path index folder flags disk
  unfolding traverse path_last_part
  traverse-fuel zero n path index flags folder disk some_left fm fn = absurd (omega arith)
  traverse-fuel (suc m) zero path index flags folder disk some_left fm fn = absurd (omega arith)
  traverse-fuel (suc m) (suc n) path index flags folder disk some_left fm fn =
      let len = path_next_part_len path in
      after_search-ext path index flags folder
        (search_folder dev folder (take len path) 0 dzfs_max_dir_contents disk) disk
        (λ found b. traverse dev m fs (drop (len + 1) path) found b flags)
        (λ found b. traverse dev n fs (drop (len + 1) path) found b flags)
        (λ more r b.
          let left = length-drop (len + 1) path in
          let below : len + 1 < length path = ground (arith, more) in
          traverse-fuel m n (drop (len + 1) path) r flags b disk (omega (arith, left, below))
            (omega (arith, left)) (omega (arith, left)))

  -- without `DZFS_O_CREATE`, the disk is as it was
  after_search-disk :
      (path : List ℕ) (index flags : ℕ) (folder : Block) (found : Result ℕ) (disk : D)
      (f : ℕ → Block → Io D (ℕ × ℕ))
      → o_create flags ≡ false
      → ((r : ℕ) (b : Block) → (f r b disk).1 ≡ disk)
      → (after_search dev fs path index folder flags found f disk).1 ≡ disk
  unfolding after_search descend
  after_search-disk path index flags folder (Result.failed e) disk f plain same = refl
  after_search-disk path index flags folder (Result.ok r) disk f plain same =
      elim (Bool-cases (r == 0)) [
        | inl miss ↦ rw (miss, plain) refl
        | inr hit ↦ elim (Bool-cases (path_last_part path)) [
          | inl last ↦ rw (hit, last) refl
          | inr more ↦ rw (hit, more) (descend-disk (dev.read_block r disk) (same r))
        ]
      ]
    where
      descend-disk :
          (b : Option Block)
          → ((b : Block) → (f r b disk).1 ≡ disk)
          → (descend dev b (f r) disk).1 ≡ disk
      descend-disk none e = refl
      descend-disk (some b) e = elim (Bool-cases (header_type b == 2)) [
        | inl is ↦ rw is (e b)
        | inr other ↦ rw other refl
      ]

  traverse-disk :
      (n : ℕ) (path : List ℕ) (index flags : ℕ) (folder : Block) (disk : D)
      → o_create flags ≡ false
      → (traverse dev n fs path index folder flags disk).1 ≡ disk
  unfolding traverse
  traverse-disk zero path index flags folder disk plain = refl
  traverse-disk (suc n) path index flags folder disk plain =
      let len = path_next_part_len path in
      after_search-disk path index flags folder
        (search_folder dev folder (take len path) 0 dzfs_max_dir_contents disk) disk
        (λ found b. traverse dev n fs (drop (len + 1) path) found b flags) plain
        (λ r b. traverse-disk n (drop (len + 1) path) r flags b disk plain)

  open_in_folder-disk :
      (path : List ℕ) (relative_to flags : ℕ) (disk : D)
      → o_create flags ≡ false
      → (open_in_folder dev fs path relative_to flags disk).1 ≡ disk
  unfolding open_in_folder open_from open_after_dots
  open_in_folder-disk path relative_to flags disk plain = elim (Bool-cases (relative_to == 0)) [
    | inl e ↦ rw e refl
    | inr ne ↦ elim (Bool-cases (is_some (dev.read_block relative_to disk))) [
      | inl reads ↦ rw (ne, reads) (after_dots (skip_dots dev relative_to path disk))
      | inr fails ↦ rw (ne, fails) refl
    ]
  ]
    where
      from :
          (at : ℕ) (path : List ℕ) (b : Option Block)
          → (open_from dev fs at path b flags disk).1 ≡ disk
      from at path none = refl
      from at path (some b) = elim (Bool-cases (names_folder path)) [
        | inl here ↦ rw here refl
        | inr below ↦ rw below (traverse-disk (length path) path at flags b disk plain)
      ]

      after_dots : (r : Result (ℕ × List ℕ)) → (open_after_dots dev fs r flags disk).1 ≡ disk
      after_dots (Result.failed e) = refl
      after_dots (Result.ok (at, path)) = from at path (dev.read_block at disk)

  rooted :
      (disk : D) (path : List ℕ) (r : Result (ℕ × ℕ) × D)
      → r.1 ≡ disk
      → (open_rooted dev fs path r disk).1 ≡ disk
  unfolding open_rooted
  rooted disk [] r h = refl
  rooted disk (c ∷ path) r h = h

  -- A call of `dzfs_open_relative` without `DZFS_O_CREATE` never writes to the disk, whatever it returns.
  pub open_relative-disk :
      (path : List ℕ) (relative_to flags : ℕ) (disk : D)
      → o_create flags ≡ false
      → (dzfs_open_relative dev fs path relative_to flags disk).1 ≡ disk
  unfolding dzfs_open_relative
  open_relative-disk [] relative_to flags disk plain =
      open_in_folder-disk [] relative_to flags disk plain
  open_relative-disk (c ∷ path) relative_to flags disk plain = elim (Bool-cases (c == slash)) [
    | inl e ↦ rw e (rooted disk path _ (open_relative-disk path fs.root_dnode flags disk plain))
    | inr e ↦ rw e (open_in_folder-disk (c ∷ path) relative_to flags disk plain)
  ]
