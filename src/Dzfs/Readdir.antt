-- ===== src/Dzfs/Readdir.antt =====
-- Directories as kernel/src/fs/fs.c hands them out: fs_mkdir and fs_readdir over dzFS.
use dz_os.Prelude.{
  ℕ, zero, suc, ◌+◌, ◌-◌, Option, none, some, List, [], ◌∷◌, leb, ◌==◌, if◌then◌else◌, ◌>>=◌,
  length,
}
use dz_os.Prelude.Int.{ℤ}
use dz_os.Fs.Inode.{InodeType, Inode}
use dz_os.Dzfs.Block.{BlockDevice, DzfsState, DzfsError}
use dz_os.Dzfs.Io.{Result}
use dz_os.Dzfs.Open.{dzfs_open_relative}
use dz_os.Dzfs.Entry.{DzfsStat, dzfs_read_dir}

-- `struct dirent`; its size without the name is 16
pub data DirentType : Type 0 where
  dt_file dt_dir : DirentType

pub record Dirent : Type 0 where
  pub creation_date : ℕ
  pub size : ℕ
  pub type_of : DirentType
  pub name : List ℕ

abbrev pub dirent_size : ℕ
dirent_size = 16

-- A string up to its terminator. One without, where strlen and strcpy run on, ends with its array here.
unfoldable pub string_of : List ℕ → List ℕ
string_of [] = []
string_of (c ∷ cs) = let rest = string_of cs in if c == 0 then [] else c ∷ rest

-- the record of an entry; `none` is the panic on another type
unfoldable pub dirent_of : DzfsStat → Option Dirent
dirent_of stat =
    if stat.type_of == 1
    then some (record {
      creation_date = stat.creation_date;
      size = stat.size;
      type_of = DirentType.dt_file;
      name = string_of stat.name;
    })
    else if stat.type_of == 2
    then some (record {
      creation_date = stat.creation_date;
      size = stat.size;
      type_of = DirentType.dt_dir;
      name = string_of stat.name;
    })
    else none

-- the bytes that a record takes in the buffer
abbrev pub dirent_bytes : Dirent → ℕ
dirent_bytes d = dirent_size + length d.name

-- a record put in front of those of the later rounds
unfoldable pub add_dirent : Dirent → Option (ℤ × List Dirent) → Option (ℤ × List Dirent)
add_dirent d none = none
add_dirent d (some (n, ds)) = some (n, d ∷ ds)

-- the result when there is no further entry, or an error
unfoldable pub read_end : DzfsError → ℕ → ℤ
read_end DzfsError.err_limit count = ℤ.pos count
read_end _ count = ℤ.negsuc 1

-- A round of the loop, given what `dzfs_read_dir` returns: `count` records are read, `len` bytes are left,
-- and `next` does the later rounds with the bytes that are left to them.
unfoldable pub readdir_round :
    Result DzfsStat → ℕ → ℕ → (ℕ → Option (ℤ × List Dirent)) → Option (ℤ × List Dirent)
readdir_round (Result.failed e) len count next = some (read_end e count, [])
readdir_round (Result.ok stat) len count next =
    let room = dirent_size + length (string_of stat.name) in
    let rest = dirent_of stat >>= λ d. add_dirent d (next (len - room)) in
    if leb len room then some (ℤ.pos count, []) else rest

-- -1 for an inode that is no directory
unfoldable pub directory_only : InodeType → Option (ℤ × List Dirent) → Option (ℤ × List Dirent)
directory_only InodeType.inode_directory entries = entries
directory_only _ entries = some (ℤ.negsuc 0, [])

module _ {D : Type 0} (dev : BlockDevice D) where
  -- The loop of `fs_readdir` on fuel; `none` is a panic or fuel run out.
  unfoldable pub readdir_from : ℕ → ℕ → ℕ → ℕ → ℕ → D → Option (ℤ × List Dirent)
  readdir_from zero dnode offset count len disk = none
  readdir_from (suc n) dnode offset count len disk =
      readdir_round (dzfs_read_dir dev dnode offset disk) len count
        (λ left. readdir_from n dnode (suc offset) (suc count) left disk)

  -- `offset` is not negative. A folder has 957 slots, hence the fuel.
  unfoldable pub fs_readdir : Inode → ℕ → ℕ → D → Option (ℤ × List Dirent)
  fs_readdir inode len offset disk =
      directory_only inode.kind (readdir_from 958 inode.dnode offset 0 len disk)

  unfoldable pub mkdir_result : Result (ℕ × ℕ) → ℤ
  mkdir_result (Result.failed e) = ℤ.negsuc 0
  mkdir_result (Result.ok r) = ℤ.pos 0

  unfoldable pub fs_mkdir : DzfsState → List ℕ → Inode → D → ℤ × D
  fs_mkdir fs directory relative_to disk =
      let r = dzfs_open_relative dev fs directory relative_to.dnode 3 disk in
      (mkdir_result r.0, r.1)
