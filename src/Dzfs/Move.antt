-- ===== src/Dzfs/Move.antt =====
-- `dzfs_move` of kernel/src/fs/dzfs.c.
use dz_os.Prelude.{
  ℕ, zero, suc, ◌+◌, Bool, true, false, not, ◌&&◌, Option, none, some, List, [], ◌∷◌, ◌++◌, ltb,
  ◌==◌, if◌then◌else◌, length,
}
use dz_os.Prelude.{is_some}
use dz_os.Dzfs.Block.{
  Block, BlockDevice, DzfsState, DzfsError, header_type, header_name, set_content_dnodes,
  dzfs_max_dir_contents, dzfs_max_filename, dzfs_entity_folder,
}
use dz_os.Dzfs.Io.{Result, Io, continue_with}
use dz_os.Dzfs.Folder.{folder_content_count, folder_lookup_name}
use dz_os.Dzfs.Open.{put_bytes, try_io}
use dz_os.Dzfs.Entry.{dzfs_delete, remove_from_parent}

-- the characters of a name up to its terminator, `n` at most from character `i`
unfoldable pub header_string : Block → ℕ → ℕ → List ℕ
header_string b i zero = []
header_string b i (suc n) =
    let rest = header_string b (suc i) n in
    if header_name b i == 0 then [] else header_name b i ∷ rest

unfoldable pub same_string : List ℕ → List ℕ → Bool
same_string [] [] = true
same_string [] (y ∷ ys) = false
same_string (x ∷ xs) [] = false
same_string (x ∷ xs) (y ∷ ys) = x == y && same_string xs ys

module _ {D : Type 0} (dev : BlockDevice D) where
  -- the new parent once an entry of the same name is out of the way
  unfoldable pub replace_old : DzfsState → Block → ℕ → List ℕ → Io D Block
  replace_old fs folder new_parent name disk =
      let old = folder_lookup_name dev folder name disk in
      let replaced =
        continue_with (dzfs_delete dev fs old new_parent disk)
          (λ done disk. (try_io (dev.read_block new_parent disk), disk)) in
      if old == 0 then (Result.ok folder, disk) else replaced

  -- the entry added to the new parent
  unfoldable pub append_entry : ℕ → ℕ → Block → Io D Unit
  append_entry new_parent dnode folder disk =
      let index = folder_content_count folder in
      let w = dev.write_block new_parent (set_content_dnodes folder index dnode) disk in
      if index == dzfs_max_dir_contents
      then (Result.failed DzfsError.err_limit, disk)
      else ((if w.0 then Result.ok tt else Result.failed DzfsError.err_io), w.1)

  -- the dnode written with its new name, if there is one
  unfoldable pub write_name : ℕ → Option (List ℕ) → Block → Io D Unit
  write_name dnode none named disk = (Result.ok tt, disk)
  write_name dnode (some name) named disk =
      let w = dev.write_block dnode named disk in
      ((if w.0 then Result.ok tt else Result.failed DzfsError.err_io), w.1)

  -- the new name in the dnode's block
  unfoldable pub rename_block : Option (List ℕ) → Block → Result Block
  rename_block none file = Result.ok file
  rename_block (some name) file =
      if ltb dzfs_max_filename (length name)
      then Result.failed DzfsError.err_limit
      else Result.ok (put_bytes file 1 (name ++ (0 ∷ [])))

  unfoldable pub move_named :
      DzfsState → ℕ → ℕ → ℕ → Option (List ℕ) → Block → Result Block → Io D Unit
  move_named fs dnode old_parent new_parent new_name folder (Result.failed e) disk =
      (Result.failed e, disk)
  move_named fs dnode old_parent new_parent new_name folder (Result.ok file) disk =
      continue_with
        (replace_old fs folder new_parent (header_string file 0 (dzfs_max_filename + 1)) disk)
        (λ folder disk. continue_with (append_entry new_parent dnode folder disk) (λ done disk.
          continue_with
            (remove_from_parent dev old_parent dnode (dev.read_block old_parent disk) disk)
            (λ done disk. write_name dnode new_name file disk)))

  unfoldable pub move_into :
      DzfsState → ℕ → ℕ → ℕ → Option (List ℕ) → Block → Option Block → Io D Unit
  move_into fs dnode old_parent new_parent new_name file none disk =
      (Result.failed DzfsError.err_io, disk)
  move_into fs dnode old_parent new_parent new_name file (some folder) disk =
      let moved =
        move_named fs dnode old_parent new_parent new_name folder (rename_block new_name file)
          disk in
      if header_type folder == dzfs_entity_folder
      then moved
      else (Result.failed DzfsError.err_argument, disk)

  -- whether the move keeps the name, given one
  unfoldable pub keeps_name : Option (List ℕ) → Block → Bool
  keeps_name none file = true
  keeps_name (some name) file = same_string name (header_string file 0 (dzfs_max_filename + 1))

  unfoldable pub move_block : DzfsState → ℕ → ℕ → ℕ → Option (List ℕ) → Option Block → Io D Unit
  move_block fs dnode old_parent new_parent new_name none disk =
      (Result.failed DzfsError.err_io, disk)
  move_block fs dnode old_parent new_parent new_name (some file) disk =
      let moved =
        move_into fs dnode old_parent new_parent new_name file (dev.read_block new_parent disk)
          disk in
      if old_parent == new_parent && keeps_name new_name file then (Result.ok tt, disk) else moved

  -- `new_name` is `none` for NULL.
  unfoldable pub dzfs_move : DzfsState → ℕ → ℕ → ℕ → Option (List ℕ) → Io D Unit
  dzfs_move fs dnode old_parent new_parent new_name disk =
      let moved =
        move_block fs dnode old_parent new_parent new_name (dev.read_block dnode disk) disk in
      if old_parent == new_parent && not (is_some new_name) then (Result.ok tt, disk) else moved
