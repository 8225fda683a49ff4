-- ===== src/Dzfs/Interface.antt =====
-- dzFS as the interface that the inode table of kernel/src/fs/fs.c calls, and what a file of the table
-- then returns.
use dz_os.Prelude.{
  u64, ℕ, ◌+◌, ◌*◌, ◌/◌, ◌%◌, ◌^◌, ◌≤◌, ◌<◌, ◌≡◌, refl, ap, ◌≢◌, inl, inr, Bool, true, false,
  Option, none, some, List, arith, ltb, ◌==◌, if◌then◌else◌, u32, Bool-cases, ==-refl, update,
  length, All,
}
use dz_os.Prelude.{All, ==-refl}
use dz_os.Prelude.Int.{ℤ}
use dz_os.Fs.Inode.{Entity, Dzfs, Inode, fs_read, fs_write}
use dz_os.Dzfs.Block.{
  Block, BlockDevice, IsBlockDevice, DzfsState, file_size, indirect_block, direct_blocks,
}
use dz_os.Dzfs.Io.{Result}
use dz_os.Dzfs.Free.{free_bit}
use dz_os.Dzfs.Open.{dzfs_open_relative}
use dz_os.Dzfs.File.{dzfs_write, dzfs_read}
use dz_os.Dzfs.Entry.{DzfsStat, dzfs_stat, dzfs_delete}
use dz_os.Dzfs.Reread.{IsByte}
use dz_os.Dzfs.Roundtrip.{dzfs_read-dzfs_write}

-- whether the code returned is `DZFS_OK`
unfoldable pub succeeded : {A : Type 0} → Result A → Bool
succeeded (Result.failed e) = false
succeeded (Result.ok a) = true

unfoldable pub result_value : {A : Type 0} → Result A → Option A
result_value (Result.failed e) = none
result_value (Result.ok a) = some a

-- `stat.type` by the values that the inode table tests
unfoldable pub entity_of : ℕ → Entity
entity_of kind =
    if kind == 1
    then Entity.entity_file
    else if kind == 2
    then Entity.entity_folder
    else Entity.entity_other

unfoldable pub entity_size : Result DzfsStat → Option (Entity × ℕ)
entity_size (Result.failed e) = none
entity_size (Result.ok stat) = some (entity_of stat.type_of, stat.size)

unfoldable pub dzfs_operations : {D : Type 0} → BlockDevice D → DzfsState → Dzfs D
dzfs_operations dev fs = record {
  root_dnode = fs.root_dnode;
  open_relative = λ disk path relative_to flags.
      let r = dzfs_open_relative dev fs path relative_to flags disk in (result_value r.0, r.1);
  stat = λ disk dnode. entity_size (dzfs_stat dev dnode disk);
  write = λ disk dnode bytes offset.
      let r = dzfs_write dev fs dnode bytes offset disk in (succeeded r.0, r.1);
  read = λ disk dnode size offset. result_value (dzfs_read dev dnode size offset disk);
  delete =
      λ disk dnode parent. let r = dzfs_delete dev fs dnode parent disk in (succeeded r.0, r.1);
}

succeeded-ok : {D : Type 0} (r : Result Unit × D) → succeeded r.0 ≡ true → r ≡ (Result.ok tt, r.1)
unfolding succeeded
succeeded-ok (Result.failed e, d) h = absurd (ground (arith, h))
succeeded-ok (Result.ok u, d) h = refl

is_pos : ℤ → Bool
is_pos (ℤ.pos n) = true
is_pos (ℤ.negsuc n) = false

-- a new size leaves the inode's dnode
kept_dnode :
    (c : Bool) (inodes : ℕ → Inode) (i size : ℕ)
    → ((if c then update inodes i (record (inodes i) { size = size }) else inodes) i).dnode
      ≡ (inodes i).dnode
kept_dnode true inodes i size = rw (==-refl i) refl
kept_dnode false inodes i size = refl

module _ {D : Type 0} (dev : BlockDevice D) (laws : IsBlockDevice dev) (fs : DzfsState) where
  -- What `fs_write` has written through an inode, `fs_read` returns through the same inode: of a file
  -- without an indirect block, for a write of at least one byte that stays in one of the direct blocks and
  -- that `fs_write` reports as complete. The inode's dnode is taken in the bitmaps and is not the block
  -- written to, and the size stays below 2 ^ 31.
  pub fs_read-fs_write :
      (i : ℕ) (inodes : ℕ → Inode) (bytes : List ℕ) (offset : ℕ) (file : Block) (disk : D)
      → fs.free_bitmap_blocks * 32768 ≤ 2 ^ 32
      → dev.read_block (inodes i).dnode disk ≡ some file
      → indirect_block file ≡ 0
      → free_bit dev disk (inodes i).dnode ≡ false
      → direct_blocks file (offset / 4096) ≢ (inodes i).dnode
      → All IsByte bytes
      → 0 < length bytes
      → offset % 4096 + length bytes ≤ 4096
      → offset / 4096 < 956
      → file_size file + length bytes < 2 ^ 31
      → (fs_write (dzfs_operations dev fs) i bytes offset inodes disk).0 ≡ ℤ.pos (length bytes)
      → fs_read
          (dzfs_operations dev fs)
          i
          (length bytes)
          offset
          (fs_write (dzfs_operations dev fs) i bytes offset inodes disk).1
          (fs_write (dzfs_operations dev fs) i bytes offset inodes disk).2
        ≡ some bytes
  unfolding fs_read fs_write dzfs_operations result_value is_pos
  fs_read-fs_write i inodes bytes offset file disk fits is no_indirect used other chars some_byte
        one low small e =
      let dnode = (inodes i).dnode in
      let w = dzfs_write dev fs dnode bytes offset disk in
      let good : succeeded w.0 ≡ true = elim (Bool-cases (succeeded w.0)) [
        | inl g ↦ g
        | inr b ↦ let bad : false ≡ true = ap is_pos (rw b at e) in absurd (ground (arith, bad))
      ] in
      let got =
        dzfs_read-dzfs_write dev laws fs dnode bytes offset file disk w.1 fits is no_indirect used
          other chars some_byte one low small (succeeded-ok w good) in
      rw
        (
          good,
          kept_dnode (ltb (inodes i).size (u64 (offset + length bytes))) inodes i
              (u32 (u64 (offset + length bytes))),
          got,
        )
        refl
