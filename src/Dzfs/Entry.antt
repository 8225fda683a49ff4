-- ===== src/Dzfs/Entry.antt =====
-- `dzfs_stat`, `dzfs_read_dir` and `dzfs_delete` of kernel/src/fs/dzfs.c.
use dz_os.Prelude.{
  ℕ, zero, suc, ◌+◌, ◌*◌, ◌^◌, Bool, true, not, ◌&&◌, Option, none, some, List, leb, ◌==◌,
  if◌then◌else◌,
}
use dz_os.Dzfs.Block.{
  Block, BlockDevice, DzfsState, DzfsError, get_u32, header_type, file_size, folder_parent,
  indirect_block, content_dnodes, dzfs_direct_blocks, dzfs_indirect_block_count,
  dzfs_max_dir_contents, dzfs_max_filename, dzfs_entity_file, dzfs_entity_folder,
}
use dz_os.Dzfs.Io.{Result, Io, continue_with}
use dz_os.Dzfs.Bitmap.{block_free}
use dz_os.Dzfs.Folder.{folder_content_count, folder_remove_content}
use dz_os.Dzfs.Open.{try_io, then_try}
use dz_os.Dzfs.File.{get_bytes}

pub record DzfsStat : Type 0 where
  pub type_of : ℕ
  pub name : List ℕ
  pub creation_date : ℕ
  pub size : ℕ
  pub parent : ℕ
  pub dnode : ℕ

unfoldable pub stat_block : ℕ → Block → Result DzfsStat
stat_block dnode b =
    let header : DzfsStat = record {
      type_of = header_type b;
      name = get_bytes b 1 (dzfs_max_filename + 1);
      creation_date = get_u32 b 256 + 2 ^ 32 * get_u32 b 260;
      size = 0;
      parent = 0;
      dnode = dnode;
    } in
    if header_type b == dzfs_entity_file
    then Result.ok (record header { size = file_size b })
    else if header_type b == dzfs_entity_folder
    then Result.ok (record header { parent = folder_parent b; size = folder_content_count b })
    else Result.failed DzfsError.err_argument

-- the slot that `dzfs_read_dir` asks for
unfoldable pub requested_dnode : Block → ℕ → Result ℕ
requested_dnode b offset =
    if not (header_type b == dzfs_entity_folder)
    then Result.failed DzfsError.err_argument
    else if leb dzfs_max_dir_contents offset
    then Result.failed DzfsError.err_limit
    else if content_dnodes b offset == 0
    then Result.failed DzfsError.err_limit
    else Result.ok (content_dnodes b offset)

-- whether `n` slots from `i` are all empty
unfoldable pub is_empty_folder : Block → ℕ → ℕ → Bool
is_empty_folder b i zero = true
is_empty_folder b i (suc n) = content_dnodes b i == 0 && is_empty_folder b (suc i) n

module _ {D : Type 0} (dev : BlockDevice D) where
  unfoldable pub dzfs_stat : ℕ → D → Result DzfsStat
  dzfs_stat dnode disk = then_try (try_io (dev.read_block dnode disk)) (stat_block dnode)

  unfoldable pub dzfs_read_dir : ℕ → ℕ → D → Result DzfsStat
  dzfs_read_dir dnode offset disk =
      then_try (try_io (dev.read_block dnode disk))
        (λ b. then_try (requested_dnode b offset) (λ child. dzfs_stat child disk))

  -- gives back the blocks numbered at byte `at` on, up to a number 0 or `n` of them
  unfoldable pub free_all : Block → ℕ → ℕ → D → D
  free_all b at zero disk = disk
  free_all b at (suc n) disk =
      let rest = free_all b (at + 4) n (block_free dev (get_u32 b at) disk) in
      if get_u32 b at == 0 then disk else rest

  unfoldable pub free_indirect : Option Block → Io D Unit
  free_indirect none disk = (Result.failed DzfsError.err_io, disk)
  free_indirect (some indirect) disk =
      (Result.ok tt, free_all indirect 0 dzfs_indirect_block_count disk)

  -- the `switch` of `dzfs_delete`
  unfoldable pub release_content : Block → Io D Unit
  release_content b disk =
      let indirect =
        if indirect_block b == 0
        then (Result.ok tt, disk)
        else free_indirect (dev.read_block (indirect_block b) disk) disk in
      let freed =
        continue_with indirect
          (λ done disk. (Result.ok tt, free_all b 272 dzfs_direct_blocks disk)) in
      if header_type b == dzfs_entity_file
      then freed
      else if not (header_type b == dzfs_entity_folder)
      then (Result.failed DzfsError.err_argument, disk)
      else if is_empty_folder b 0 dzfs_max_dir_contents
      then (Result.ok tt, disk)
      else (Result.failed DzfsError.err_not_empty, disk)

  -- The removal from a parent: its block read, checked to be a folder, searched, and written back.
  unfoldable pub remove_from_parent : ℕ → ℕ → Option Block → Io D Unit
  remove_from_parent parent dnode none disk = (Result.failed DzfsError.err_io, disk)
  remove_from_parent parent dnode (some b) disk =
      let removed = folder_remove_content b dnode in
      let w = dev.write_block parent removed.1 disk in
      if not (header_type b == dzfs_entity_folder)
      then (Result.failed DzfsError.err_argument, disk)
      else if not removed.0
      then (Result.failed DzfsError.err_argument, disk)
      else ((if w.0 then Result.ok tt else Result.failed DzfsError.err_io), w.1)

  unfoldable pub delete_block : ℕ → ℕ → Option Block → Io D Unit
  delete_block dnode parent none disk = (Result.failed DzfsError.err_io, disk)
  delete_block dnode parent (some b) disk = continue_with (release_content b disk) (λ done disk.
      continue_with (remove_from_parent parent dnode (dev.read_block parent disk) disk)
        (λ done disk. (Result.ok tt, block_free dev dnode disk)))

  unfoldable pub dzfs_delete : DzfsState → ℕ → ℕ → Io D Unit
  dzfs_delete fs dnode parent disk =
      let deleted = delete_block dnode parent (dev.read_block dnode disk) disk in
      if dnode == fs.root_dnode then (Result.failed DzfsError.err_argument, disk) else deleted
