-- ===== src/Fs/File.antt =====
-- The open files of a process: kernel/src/fs/file.c and `proc_allocate_fd` of
-- kernel/src/userspace/proc.c.
use dz_os.Prelude.{
  ℕ, zero, suc, ◌+◌, ◌-◌, ◌/◌, ◌%◌, ◌^◌, Bool, true, false, not, ◌||◌, Option, none, some, List,
  ltb, leb, ◌==◌, if◌then◌else◌, u32, ◌>>=◌, update, length,
}
use dz_os.Prelude.Int.{ℤ, ◌+ℤ◌}
use dz_os.Fs.Inode.{Inode, Dzfs, fs_open, fs_write, fs_read, to_int}

abbrev pub max_open_files : ℕ
max_open_files = 8

-- what an open file is: `type` and `structures` of `struct process_file`, an inode by its index
pub data FileType : Type 0 where
  fd_empty : FileType
  fd_inode : ℕ → FileType
  fd_device : ℕ → FileType

pub record ProcessFile : Type 0 where
  pub kind : FileType
  pub offset : ℕ
  pub readable : Bool
  pub writable : Bool

-- the fields of `struct process` that these files use
pub record Process : Type 0 where
  pub open_files : ℕ → ProcessFile
  pub working_directory : Option ℕ

abbrev pub is_free : FileType → Bool
is_free FileType.fd_empty = true
is_free _ = false

-- the first empty entry, `n` entries from `at`; `none` is -1
unfoldable pub free_fd : (ℕ → ProcessFile) → ℕ → ℕ → Option ℕ
free_fd files at zero = none
free_fd files at (suc n) =
    let rest = free_fd files (suc at) n in if is_free (files at).kind then some at else rest

unfoldable pub proc_allocate_fd : Process → Option ℕ
proc_allocate_fd p = free_fd p.open_files 0 max_open_files

abbrev pub minus_one : ℤ
minus_one = ℤ.negsuc 0

-- bit `k` of the flags
abbrev pub bit : ℕ → ℕ → Bool
bit flags k = not ((flags / 2 ^ k) % 2 == 0)

-- `O_CREAT` is bit 6 and `O_DIR` bit 12; `DZFS_O_CREATE` and `DZFS_O_DIR` are 1 and 2.
unfoldable pub fs_flags : ℕ → ℕ
fs_flags flags = (if bit flags 6 then 1 else 0) + (if bit flags 12 then 2 else 0)

-- the entry of a file just opened; `O_WRONLY` is bit 0 and `O_RDWR` bit 1
unfoldable pub opened_file : ℕ → ℕ → ProcessFile
opened_file i flags = record {
  kind = FileType.fd_inode i;
  offset = 0;
  readable = not (bit flags 0);
  writable = bit flags 0 || bit flags 1;
}

-- `(uint32_t)` of a signed number
unfoldable pub to_u32 : ℤ → ℕ
to_u32 (ℤ.pos n) = u32 n
to_u32 (ℤ.negsuc n) = 2 ^ 32 - 1 - n % 2 ^ 32

-- the new offset before the test against the end of the file
unfoldable pub seek_target : ℕ → ℕ → ℤ → ℕ → Option ℕ
seek_target size current offset whence =
    if whence == 0
    then some (to_u32 offset)
    else if whence == 1
    then some (to_u32 (ℤ.pos current +ℤ offset))
    else if whence == 2
    then some (u32 (size + 2 ^ 32 - to_u32 offset))
    else none

-- what follows the switch: an offset beyond the end of the file is moved to it
unfoldable pub seek_to : ℕ → ProcessFile → Option ℕ → ℤ × ProcessFile
seek_to size file none = (minus_one, file)
seek_to size file (some target) =
    let at = if ltb size target then size else target in (to_int at, record file { offset = at })

-- the offset that is returned, and the file after a seek
unfoldable pub seek_file : ℕ → ProcessFile → ℤ → ℕ → ℤ × ProcessFile
seek_file size file offset whence = seek_to size file (seek_target size file.offset offset whence)

abbrev pub set_file : ℕ → ProcessFile → Process → Process
set_file fd file p = record p { open_files = update p.open_files fd file }

-- `fd` is a descriptor of an inode, as `file_seek` wants it: the inode's index, or a panic
unfoldable pub inode_of : ℕ → Process → Option ℕ
inode_of fd p = elim (p.open_files fd).kind [
  | FileType.fd_empty ↦ none
  | FileType.fd_inode i ↦ if leb max_open_files fd then none else some i
  | FileType.fd_device d ↦ none
]

unfoldable pub file_seek : ℕ → ℤ → ℕ → (ℕ → Inode) → Process → Option (ℤ × Process)
file_seek fd offset whence inodes p = inode_of fd p >>= λ i.
    let r = seek_file (inodes i).size (p.open_files fd) offset whence in
    some (r.0, set_file fd r.1 p)

-- a file moved on by the bytes of a transfer
unfoldable pub advance : ℕ → ProcessFile → ProcessFile
advance n file = record file { offset = u32 (file.offset + n) }

module _ {D : Type 0} (fs : Dzfs D) where
  -- The result is the descriptor, or `none` for -1.
  unfoldable pub file_open :
      List ℕ → ℕ → (ℕ → Inode) → D → Process → Option (Option ℕ × (ℕ → Inode) × D × Process)
  file_open path flags inodes disk p = elim (proc_allocate_fd p) [
    | none ↦ some (none, inodes, disk, p)
    | some fd ↦ fs_open fs path p.working_directory (fs_flags flags) inodes disk >>= λ r. elim r.0 [
      | none ↦ some (none, r.1, r.2, p)
      | some i ↦ some (some fd, r.1, r.2, set_file fd (opened_file i flags) p)
    ]
  ]

  unfoldable pub file_write :
      ℕ → List ℕ → (ℕ → Inode) → D → Process → Option (ℤ × (ℕ → Inode) × D × Process)
  file_write fd buffer inodes disk p =
      if not (p.open_files fd).writable
      then none
      else (inode_of fd p >>= λ i.
          let r = fs_write fs i buffer (p.open_files fd).offset inodes disk in
          elim r.0 [
            | ℤ.pos n ↦ some (r.0, r.1, r.2, set_file fd (advance n (p.open_files fd)) p)
            | ℤ.negsuc n ↦ some (r.0, r.1, r.2, p)
          ])

  -- The bytes read, or `none` inside for a negative result.
  unfoldable pub file_read : ℕ → ℕ → (ℕ → Inode) → D → Process → Option (Option (List ℕ) × Process)
  file_read fd len inodes disk p =
      if not (p.open_files fd).readable
      then none
      else (inode_of fd p >>= λ i. elim (fs_read fs i len (p.open_files fd).offset inodes disk) [
        | none ↦ some (none, p)
        | some bytes ↦ some (some bytes, set_file fd (advance (length bytes) (p.open_files fd)) p)
      ])
