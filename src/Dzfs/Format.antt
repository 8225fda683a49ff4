-- ===== src/Dzfs/Format.antt =====
-- `dzfs_new` and `dzfs_init` of kernel/src/fs/dzfs.c.
use dz_os.Prelude.{
  ℕ, ◌^◌, zero, suc, ◌+◌, ◌-◌, ◌*◌, ◌/◌, Bool, true, ◌&&◌, List, [], ◌∷◌, leb, ◌==◌, if◌then◌else◌,
  u32,
}
use dz_os.Dzfs.Block.{
  Block, BlockDevice, DzfsState, DzfsError, zero_block, get_u8, get_u32, put_u32,
  dzfs_bitset_covered_blocks,
}
use dz_os.Dzfs.Io.{Result, Io, continue_with}
use dz_os.Dzfs.Bitmap.{bitmap_clear}
use dz_os.Dzfs.Open.{put_bytes, try_io, then_try, new_dnode}

-- "dzFS"
abbrev pub dzfs_magic : List ℕ
dzfs_magic = 100 ∷ 122 ∷ 70 ∷ 83 ∷ []

abbrev pub dzfs_version : ℕ
dzfs_version = 1

abbrev pub superblock_dnode : ℕ
superblock_dnode = 1

-- the blocks that the free bitmaps take
abbrev pub bitmap_blocks : ℕ → ℕ
bitmap_blocks blocks = u32 (blocks + dzfs_bitset_covered_blocks - 1) / dzfs_bitset_covered_blocks

unfoldable pub superblock : ℕ → Block
superblock blocks = put_u32 (put_u32 (put_bytes zero_block 0 dzfs_magic) 4 dzfs_version) 8 blocks

-- a bitmap of free blocks only
abbrev pub full_bitmap : Block
full_bitmap i = 255

-- clears the bits from `i` up, `n` of them
unfoldable pub clear_up : Block → ℕ → ℕ → Block
clear_up b i zero = b
clear_up b i (suc n) = clear_up (bitmap_clear b i) (suc i) n

-- clears the bits of `n` blocks from `blocks` on, the last first
unfoldable pub clear_down : Block → ℕ → ℕ → Block
clear_down b blocks zero = b
clear_down b blocks (suc n) = clear_down (bitmap_clear b (blocks + n)) blocks n

-- the first bitmap, and the last one
unfoldable pub first_bitmap : ℕ → Block
first_bitmap bitmaps = clear_up full_bitmap 0 (bitmaps + 3)

unfoldable pub last_bitmap : ℕ → ℕ → Block
last_bitmap bitmaps blocks =
    clear_down (if bitmaps == 1 then first_bitmap bitmaps else full_bitmap) blocks
      (dzfs_bitset_covered_blocks * bitmaps - blocks)

-- whether the block starts with these bytes
unfoldable pub starts_with : Block → ℕ → List ℕ → Bool
starts_with b i [] = true
starts_with b i (x ∷ xs) = get_u8 b i == x && starts_with b (suc i) xs

unfoldable pub load_superblock : Block → Result DzfsState
load_superblock b =
    let blocks = get_u32 b 8 in
    if starts_with b 0 dzfs_magic
    then Result.ok (record {
      blocks = blocks;
      free_bitmap_blocks = bitmap_blocks blocks;
      root_dnode = 1 + 1 + bitmap_blocks blocks;
    })
    else Result.failed DzfsError.err_init_invalid_fs

module _ {D : Type 0} (dev : BlockDevice D) where
  unfoldable pub write_or_fail : ℕ → Block → Io D Unit
  write_or_fail i b disk =
      let w = dev.write_block i b disk in
      ((if w.0 then Result.ok tt else Result.failed DzfsError.err_io), w.1)

  -- `n` bitmaps from block `i`, all free
  unfoldable pub write_full : ℕ → ℕ → Io D Unit
  write_full i zero disk = (Result.ok tt, disk)
  write_full i (suc n) disk =
      continue_with (write_or_fail i full_bitmap disk) (λ done disk. write_full (suc i) n disk)

  -- from the calculation of the bitmaps' size on
  unfoldable pub write_layout : ℕ → ℕ → Io D DzfsState
  write_layout blocks bitmaps disk =
      continue_with (write_full 3 (u32 (bitmaps + (2 ^ 32 - 1)) - 1) disk) (λ done disk.
        continue_with (write_or_fail 2 (first_bitmap bitmaps) disk) (λ done disk.
          continue_with (write_or_fail (2 + bitmaps - 1) (last_bitmap bitmaps blocks) disk)
            (λ done disk.
              continue_with
                (write_or_fail (2 + bitmaps)
                  (new_dnode (dev.current_date disk) (47 ∷ []) true (2 + bitmaps)) disk)
                (λ done disk. (
                  Result.ok (record {
                    blocks = blocks;
                    free_bitmap_blocks = bitmaps;
                    root_dnode = 2 + bitmaps;
                  }),
                  disk,
                )))))

  unfoldable pub dzfs_new : Io D DzfsState
  dzfs_new disk =
      let blocks = dev.total_blocks in
      let bitmaps = bitmap_blocks blocks in
      let written =
        continue_with (write_or_fail superblock_dnode (superblock blocks) disk) (λ done disk.
          if leb blocks (3 + bitmaps)
          then (Result.failed DzfsError.err_too_small, disk)
          else write_layout blocks bitmaps disk) in
      if leb blocks 4 then (Result.failed DzfsError.err_too_small, disk) else written

  unfoldable pub dzfs_init : D → Result DzfsState
  dzfs_init disk = then_try (try_io (dev.read_block superblock_dnode disk)) load_superblock
