-- ===== src/Dzfs/Listing.antt =====
-- What `fs_readdir` of kernel/src/fs/fs.c returns.
use dz_os.Prelude.{
  ℕ, zero, suc, ◌+◌, ◌-◌, ◌≤◌, ◌<◌, ◌≡◌, refl, ap, ◌⊎◌, inl, inr, true, false, Option, some, List,
  [], ◌∷◌, arith, leb, ◌==◌, Bool-cases, length,
}
use dz_os.Prelude.Int.{ℤ}
use dz_os.Fs.Inode.{InodeType, Inode}
use dz_os.Dzfs.Block.{Block, BlockDevice, header_type}
use dz_os.Dzfs.Io.{Result, is_ok}
use dz_os.Dzfs.Open.{then_try, try_io}
use dz_os.Dzfs.Entry.{DzfsStat, dzfs_stat, dzfs_read_dir, requested_dnode, stat_block}
use dz_os.Dzfs.Readdir.{
  DirentType, Dirent, dirent_of, dirent_bytes, dirent_size, string_of, add_dirent, read_end,
  readdir_round, readdir_from, fs_readdir, directory_only,
}

-- the bytes that records take
abbrev pub bytes_of : List Dirent → ℕ
bytes_of [] = 0
bytes_of (d ∷ ds) = dirent_bytes d + bytes_of ds

-- a call that returns, with records that fit `len` bytes
abbrev pub Listed : ℕ → Option (ℤ × List Dirent) → Type 0
Listed len r = (n : ℤ) × (ds : List Dirent) × (r ≡ some (n, ds)) × (bytes_of ds ≤ len)

then_try-ok :
    {A B : Type 0} (r : Result A) (f : A → Result B) (b : B)
    → then_try r f ≡ Result.ok b
    → (a : A) × (f a ≡ Result.ok b) × (r ≡ Result.ok a)
unfolding then_try
then_try-ok (Result.failed e) f b h =
    let bad : false ≡ true = ap is_ok h in absurd (ground (arith, bad))
then_try-ok (Result.ok a) f b h = (a, h, refl)

-- an entry read stands in one of the slots, and is a file or a folder
requested-offset :
    (b : Block) (offset dnode : ℕ) → requested_dnode b offset ≡ Result.ok dnode → offset < 957
unfolding requested_dnode
requested-offset b offset dnode h = elim (Bool-cases (leb 957 offset)) [
  | inl far ↦ elim (Bool-cases (header_type b == 2)) [
    | inl folder ↦
        let bad : false ≡ true = ap is_ok (rw (folder, far) at h) in absurd (ground (arith, bad))
    | inr other ↦ let bad : false ≡ true = ap is_ok (rw other at h) in absurd (ground (arith, bad))
  ]
  | inr near ↦ ground arith
]

-- the type that a stat carries
stat_type : Result DzfsStat → ℕ
stat_type (Result.failed e) = 0
stat_type (Result.ok stat) = stat.type_of

stat_block-type :
    (dnode : ℕ) (b : Block) (stat : DzfsStat)
    → stat_block dnode b ≡ Result.ok stat
    → (stat.type_of ≡ 1) ⊎ (stat.type_of ≡ 2)
unfolding stat_block stat_type
stat_block-type dnode b stat h = elim (Bool-cases (header_type b == 1)) [
  | inl file ↦
      let at : header_type b ≡ stat.type_of = ap stat_type (rw file at h) in
      inl (ground (arith, at, file))
  | inr no_file ↦ elim (Bool-cases (header_type b == 2)) [
    | inl folder ↦
        let at : header_type b ≡ stat.type_of = ap stat_type (rw (no_file, folder) at h) in
        inr (ground (arith, at, folder))
    | inr other ↦
        let bad : false ≡ true = ap is_ok (rw (no_file, other) at h) in absurd (ground (arith, bad))
  ]
]

abbrev dirent : DzfsStat → DirentType → Dirent
dirent stat kind = record {
  creation_date = stat.creation_date;
  size = stat.size;
  type_of = kind;
  name = string_of stat.name;
}

-- A file or a folder has a record.
dirent_of-some :
    (stat : DzfsStat)
    → (stat.type_of ≡ 1) ⊎ (stat.type_of ≡ 2)
    → (d : Dirent) × (dirent_of stat ≡ some d)
      × (dirent_bytes d ≡ dirent_size + length (string_of stat.name))
unfolding dirent_of
dirent_of-some stat (inl file) = (dirent stat DirentType.dt_file, rw file refl, refl)
dirent_of-some stat (inr folder) = (dirent stat DirentType.dt_dir, rw folder refl, refl)

add_dirent-Listed :
    (d : Dirent) (left : ℕ) (r : Option (ℤ × List Dirent))
    → Listed left r
    → Listed (left + dirent_bytes d) (add_dirent d r)
unfolding add_dirent
add_dirent-Listed d left r v = (v.0, d ∷ v.1, rw v.2 refl, omega (arith, v.3))

readdir_round-Listed :
    (r : Result DzfsStat) (len count : ℕ) (next : ℕ → Option (ℤ × List Dirent))
    → ((stat : DzfsStat)
        → r ≡ Result.ok stat
        → ((stat.type_of ≡ 1) ⊎ (stat.type_of ≡ 2)) × ((left : ℕ) → Listed left (next left)))
    → Listed len (readdir_round r len count next)
unfolding readdir_round
readdir_round-Listed (Result.failed e) len count next h = (read_end e count, [], refl, omega arith)
readdir_round-Listed (Result.ok stat) len count next h =
    let room = dirent_size + length (string_of stat.name) in
    let v = h stat refl in
    let d = dirent_of-some stat v.0 in
    elim (Bool-cases (leb len room)) [
      | inl full ↦ rw full (ℤ.pos count, [], refl, omega arith)
      | inr free ↦
          let more = add_dirent-Listed d.0 (len - room) (next (len - room)) (v.1 (len - room)) in
          let exact : len - room + dirent_bytes d.0 ≡ len = ground (arith, free, d.2) in
          rw (free, d.1) (more.0, more.1, more.2, omega (arith, more.3, exact))
    ]

directory_only-Listed :
    (kind : InodeType) (len : ℕ) (r : Option (ℤ × List Dirent))
    → Listed len r
    → Listed len (directory_only kind r)
unfolding directory_only
directory_only-Listed InodeType.inode_empty len r v = (ℤ.negsuc 0, [], refl, omega arith)
directory_only-Listed InodeType.inode_file len r v = (ℤ.negsuc 0, [], refl, omega arith)
directory_only-Listed InodeType.inode_directory len r v = v

module _ {D : Type 0} (dev : BlockDevice D) where
  readdir_from-Listed :
      (n dnode offset count len : ℕ) (disk : D)
      → 0 < n
      → 958 ≤ n + offset
      → Listed len (readdir_from dev n dnode offset count len disk)
  unfolding readdir_from dzfs_read_dir dzfs_stat
  readdir_from-Listed zero dnode offset count len disk some_fuel enough = absurd (omega arith)
  readdir_from-Listed (suc n) dnode offset count len disk some_fuel enough =
      readdir_round-Listed (dzfs_read_dir dev dnode offset disk) len count
        (λ left. readdir_from dev n dnode (suc offset) (suc count) left disk)
        (λ stat is.
          let folder = then_try-ok (try_io (dev.read_block dnode disk)) _ stat is in
          let child = then_try-ok (requested_dnode folder.0 offset) _ stat folder.1 in
          let entry =
            then_try-ok (try_io (dev.read_block child.0 disk)) (stat_block child.0) stat child.1 in
          let slot : offset < 957 = requested-offset folder.0 offset child.0 child.2 in
          (
            stat_block-type child.0 entry.0 stat entry.1,
            λ left.
                readdir_from-Listed n dnode (suc offset) (suc count) left disk (omega (arith, slot))
                  (omega arith),
          ))

  -- `fs_readdir` returns for every inode, buffer and offset: it never meets an entry that it panics on, ends
  -- after at most one round for each slot and one more, and the records it writes fit the buffer.
  pub readdir-Listed :
      (inode : Inode) (len offset : ℕ) (disk : D)
      → Listed len (fs_readdir dev inode len offset disk)
  unfolding fs_readdir
  readdir-Listed inode len offset disk =
      directory_only-Listed inode.kind len _
        (readdir_from-Listed 958 inode.dnode offset 0 len disk (omega arith) (omega arith))
