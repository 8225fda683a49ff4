-- ===== src/Dzfs/Boot.antt =====
-- The start of the file system in kernel/src/fs/fs.c: fs_init and fs_ensure_userspace_prog, over dzFS.
use dz_os.Prelude.{ℕ, ◌+◌, ◌%◌, ◌^◌, ◌≤◌, ◌≡◌, refl, Option, none, some, List, ◌==◌, if◌then◌else◌}
use dz_os.Dzfs.Block.{BlockDevice, IsBlockDevice, DzfsState, DzfsError}
use dz_os.Dzfs.Io.{Result}
use dz_os.Dzfs.Open.{dzfs_open_absolute}
use dz_os.Dzfs.File.{dzfs_write}
use dz_os.Dzfs.Format.{dzfs_new, dzfs_init}
use dz_os.Dzfs.Layout.{dzfs_init-dzfs_new}

-- The dnode of a call that fails stays 0, since the callbacks of fs.c report no error.
unfoldable pub opened_dnode : Result (ℕ × ℕ) → ℕ
opened_dnode (Result.failed e) = 0
opened_dnode (Result.ok r) = r.0

module _ {D : Type 0} (dev : BlockDevice D) where
  unfoldable pub fs_ensure_userspace_prog : DzfsState → List ℕ → List ℕ → D → D
  fs_ensure_userspace_prog fs prog path disk =
      let opened = dzfs_open_absolute dev fs path 1 disk in
      (dzfs_write dev fs (opened_dnode opened.0) prog 0 opened.1).1

  -- the second dzfs_init, behind a dzfs_new; `none` is a panic
  unfoldable pub init_again : List ℕ → List ℕ → Result DzfsState → D → Option (DzfsState × D)
  init_again prog path (Result.failed e) disk = none
  init_again prog path (Result.ok fs) disk = some (fs, fs_ensure_userspace_prog fs prog path disk)

  unfoldable pub format_disk : List ℕ → List ℕ → Result DzfsState × D → Option (DzfsState × D)
  format_disk prog path (Result.failed e, disk) = none
  format_disk prog path (Result.ok fs, disk) = init_again prog path (dzfs_init dev disk) disk

  unfoldable pub mount_or_format : List ℕ → List ℕ → Result DzfsState → D → Option (DzfsState × D)
  mount_or_format prog path (Result.failed e) disk = format_disk prog path (dzfs_new dev disk)
  mount_or_format prog path (Result.ok fs) disk =
      some (fs, fs_ensure_userspace_prog fs prog path disk)

  -- `nvme_block_size` and the program to install, with its path, are arguments.
  unfoldable pub fs_init : ℕ → List ℕ → List ℕ → D → Option (DzfsState × D)
  fs_init nvme_block_size prog path disk =
      if 4096 % nvme_block_size == 0
      then mount_or_format prog path (dzfs_init dev disk) disk
      else none

  -- A disk that is not formatted yet and that dzfs_new formats is mounted with the state that dzfs_new
  -- left: the second dzfs_init does not panic.
  pub fs_init-dzfs_new :
      (nvme_block_size : ℕ) (prog path : List ℕ) (disk after : D) (e : DzfsError) (fs : DzfsState)
      → IsBlockDevice dev
      → 4096 % nvme_block_size ≡ 0
      → dev.total_blocks + 32768 ≤ 2 ^ 32
      → dzfs_init dev disk ≡ Result.failed e
      → dzfs_new dev disk ≡ (Result.ok fs, after)
      → fs_init nvme_block_size prog path disk
        ≡ some (fs, fs_ensure_userspace_prog fs prog path after)
  unfolding fs_init mount_or_format format_disk init_again
  fs_init-dzfs_new nvme_block_size prog path disk after e fs laws divides small unformatted
        formatted =
      rw
        (divides, unformatted, formatted, dzfs_init-dzfs_new dev laws fs disk after formatted small)
        refl
