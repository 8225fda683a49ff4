-- ===== src/Dzfs/Bitmap.antt =====
-- The free bitmaps of dzFS (kernel/src/fs/dzfs.c): finding, taking and giving back blocks. A 1 bit is a
-- free block.
use dz_os.Prelude.{
  ℕ, zero, suc, ◌+◌, ◌*◌, ◌/◌, ◌%◌, Option, none, some, leb, ◌==◌, if◌then◌else◌, u32, ◌>>=◌,
}
use dz_os.Dzfs.Block.{
  Block, BlockDevice, DzfsState, get_u8, put_u8, dzfs_bitset_covered_blocks, dzfs_block_size,
}
use dz_os.Dzfs.Bits.{ctz, set_mask, clear_mask, popcount}

unfoldable pub bitmap_set : Block → ℕ → Block
bitmap_set bitmap index =
    if leb dzfs_block_size (index / 8)
    then bitmap
    else put_u8 bitmap (index / 8) (set_mask (get_u8 bitmap (index / 8)) (index % 8))

unfoldable pub bitmap_clear : Block → ℕ → Block
bitmap_clear bitmap index =
    if leb dzfs_block_size (index / 8)
    then bitmap
    else put_u8 bitmap (index / 8) (clear_mask (get_u8 bitmap (index / 8)) (index % 8))

-- `dnode / 8 / DZFS_BLOCK_SIZE + 1 + 1`, the bitmap block that holds a block's bit
abbrev pub bitmap_of : ℕ → ℕ
bitmap_of dnode = dnode / 8 / 4096 + 1 + 1

-- the first of `n` bytes from `i` that is not 0
unfoldable pub find_byte : Block → ℕ → ℕ → Option ℕ
find_byte b i zero = none
find_byte b i (suc n) = let rest = find_byte b (suc i) n in if get_u8 b i == 0 then rest else some i

unfoldable pub dnode_at : ℕ → Block → Option ℕ → ℕ
dnode_at free_block b none = 0
dnode_at free_block b (some i) =
    u32 (free_block * dzfs_bitset_covered_blocks + i * 8 + ctz 32 (get_u8 b i))

-- one round of the outer loop of `block_alloc`, given what the rest of it would return; 0 is failure
unfoldable pub search_bitmap : ℕ → ℕ → Option Block → ℕ
search_bitmap free_block rest none = 0
search_bitmap free_block rest (some b) =
    let dnode = dnode_at free_block b (find_byte b 0 dzfs_block_size) in
    if dnode == 0 then rest else dnode

module _ {D : Type 0} (dev : BlockDevice D) where
  -- the outer loop, `n` bitmaps from `free_block`
  unfoldable pub find_free : ℕ → ℕ → D → ℕ
  find_free free_block zero disk = 0
  find_free free_block (suc n) disk =
      search_bitmap free_block (find_free (suc free_block) n disk)
        (dev.read_block (free_block + 1 + 1) disk)

  -- the write-back of `block_alloc`, given the bitmap read again
  unfoldable pub take_block : ℕ → Option Block → D → ℕ × D
  take_block dnode none disk = (0, disk)
  take_block dnode (some b) disk =
      let r =
        dev.write_block (bitmap_of dnode) (bitmap_clear b (dnode % dzfs_bitset_covered_blocks))
          disk in
      ((if r.0 then dnode else 0), r.1)

  unfoldable pub block_alloc : DzfsState → D → ℕ × D
  block_alloc fs disk =
      let dnode = find_free 0 fs.free_bitmap_blocks disk in
      let taken = take_block dnode (dev.read_block (bitmap_of dnode) disk) disk in
      if dnode == 0 then (0, disk) else taken

  -- `block_free` given the bitmap read
  unfoldable pub give_block : ℕ → Option Block → D → D
  give_block dnode none disk = disk
  give_block dnode (some b) disk =
      (dev.write_block (bitmap_of dnode) (bitmap_set b (dnode % dzfs_bitset_covered_blocks)) disk).1

  unfoldable pub block_free : ℕ → D → D
  block_free dnode disk = give_block dnode (dev.read_block (bitmap_of dnode) disk) disk

-- The two loops of `dzfs_free_blocks`; the sum is a word of 32 bits.
unfoldable pub add_byte : Option ℕ → ℕ → Option ℕ
add_byte none sum = none
add_byte (some c) sum = some (u32 (sum + c))

-- `n` bytes from `i`
unfoldable pub count_bytes : Block → ℕ → ℕ → ℕ → Option ℕ
count_bytes b i zero sum = some sum
count_bytes b i (suc n) sum = add_byte (popcount (get_u8 b i)) sum >>= count_bytes b (suc i) n

unfoldable pub count_block : Option Block → ℕ → Option ℕ
count_block none sum = some sum
count_block (some b) sum = count_bytes b 0 dzfs_block_size sum

module _ {D : Type 0} (dev : BlockDevice D) where
  -- `n` bitmaps from `block`
  unfoldable pub count_blocks : ℕ → ℕ → D → ℕ → Option ℕ
  count_blocks block zero disk sum = some sum
  count_blocks block (suc n) disk sum =
      count_block (dev.read_block (block + 2) disk) sum >>= count_blocks (suc block) n disk

  unfoldable pub dzfs_free_blocks : DzfsState → D → Option ℕ
  dzfs_free_blocks fs disk = count_blocks 0 fs.free_bitmap_blocks disk 0
