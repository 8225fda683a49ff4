-- ===== src/Dzfs/Block.antt =====
-- The blocks of a dzFS disk and the callbacks that reach them (kernel/src/fs/dzfs.h). A block is its 4096
-- bytes; the members of the source's union are views of them, little-endian at the packed structures' offsets.
use dz_os.Prelude.{
  ℕ, ◌+◌, ◌*◌, ◌/◌, ◌^◌, ◌≤◌, ◌<◌, ◌≡◌, refl, ◌≢◌, ◌⊎◌, inl, inr, Bool, true, Option, some, arith,
  ◌==◌, if◌then◌else◌, u8, update,
}

abbrev pub dzfs_block_size : ℕ
dzfs_block_size = 4096

abbrev pub dzfs_indirect_block_count : ℕ
dzfs_indirect_block_count = 1024

abbrev pub dzfs_max_filename : ℕ
dzfs_max_filename = 254

abbrev pub dzfs_direct_blocks : ℕ
dzfs_direct_blocks = 956

abbrev pub dzfs_max_dir_contents : ℕ
dzfs_max_dir_contents = 957

abbrev pub dzfs_max_filesize : ℕ
dzfs_max_filesize = 4096 * (1024 + 956)

abbrev pub dzfs_bitset_covered_blocks : ℕ
dzfs_bitset_covered_blocks = 4096 * 8

-- `DZFS_ERR_*`
pub data DzfsError : Type 0 where
  err_argument err_init_invalid_fs err_limit err_not_found err_full err_not_empty err_too_small
        err_io :
      DzfsError

-- the bytes by offset
abbrev pub Block : Type 0
Block = ℕ → ℕ

-- a block from `allocate_mem_block`, which fills it with zero
abbrev pub zero_block : Block
zero_block i = 0

abbrev pub get_u8 : Block → ℕ → ℕ
get_u8 b i = u8 (b i)

abbrev pub put_u8 : Block → ℕ → ℕ → Block
put_u8 b i v = update b i (u8 v)

unfoldable pub get_u32 : Block → ℕ → ℕ
get_u32 b i =
    get_u8 b i + 2 ^ 8 * get_u8 b (i + 1) + 2 ^ 16 * get_u8 b (i + 2) + 2 ^ 24 * get_u8 b (i + 3)

unfoldable pub put_u32 : Block → ℕ → ℕ → Block
put_u32 b i v j =
    if j == i
    then u8 v
    else if j == i + 1
    then u8 (v / 2 ^ 8)
    else if j == i + 2
    then u8 (v / 2 ^ 16)
    else if j == i + 3
    then u8 (v / 2 ^ 24)
    else b j

-- `header.type`, with `entity_file` and `entity_folder` for the two values that the source tests
abbrev pub dzfs_entity_file : ℕ
dzfs_entity_file = 1

abbrev pub dzfs_entity_folder : ℕ
dzfs_entity_folder = 2

abbrev pub header_type : Block → ℕ
header_type b = get_u8 b 0

-- `header.name[i]`
abbrev pub header_name : Block → ℕ → ℕ
header_name b i = get_u8 b (1 + i)

abbrev pub file_size : Block → ℕ
file_size b = get_u32 b 264

abbrev pub indirect_block : Block → ℕ
indirect_block b = get_u32 b 268

abbrev pub direct_blocks : Block → ℕ → ℕ
direct_blocks b i = get_u32 b (272 + 4 * i)

abbrev pub folder_parent : Block → ℕ
folder_parent b = get_u32 b 264

abbrev pub content_dnodes : Block → ℕ → ℕ
content_dnodes b i = get_u32 b (268 + 4 * i)

abbrev pub set_content_dnodes : Block → ℕ → ℕ → Block
set_content_dnodes b i v = put_u32 b (268 + 4 * i) v

-- The callbacks of `struct dzFS`, on a disk of type `D`. `write_block` tells whether it succeeded; a
-- failed `read_block` is `none`.
pub record BlockDevice (D : Type 0) : Type 0 where
  pub read_block : ℕ → D → Option Block
  pub write_block : ℕ → Block → D → Bool × D
  pub current_date : D → ℕ
  pub total_blocks : ℕ

-- what the callers rely on: a block that was written is read back, and the others keep their contents
pub record IsBlockDevice {D : Type 0} (dev : BlockDevice D) : Type 0 where
  pub read-write_self :
      (i : ℕ) (b : Block) (disk : D)
      → (dev.write_block i b disk).0 ≡ true
      → dev.read_block i (dev.write_block i b disk).1 ≡ some b
  pub read-write_ne :
      (i j : ℕ) (b : Block) (disk : D)
      → i ≢ j
      → dev.read_block j (dev.write_block i b disk).1 ≡ dev.read_block j disk

-- what `struct dzFS` caches of the superblock
pub record DzfsState : Type 0 where
  pub blocks : ℕ
  pub free_bitmap_blocks : ℕ
  pub root_dnode : ℕ

pub get_u32-put_u32_self : (b : Block) (i v : ℕ) → v < 2 ^ 32 → get_u32 (put_u32 b i v) i ≡ v
unfolding get_u32 put_u32
get_u32-put_u32_self b i v small =
    let e0 : put_u32 b i v i ≡ u8 v = ground arith in
    let e1 : put_u32 b i v (i + 1) ≡ u8 (v / 2 ^ 8) = ground arith in
    let e2 : put_u32 b i v (i + 2) ≡ u8 (v / 2 ^ 16) = ground arith in
    let e3 : put_u32 b i v (i + 3) ≡ u8 (v / 2 ^ 24) = ground arith in
    rw (e0, e1, e2, e3) (omega arith)

pub put_u32_ne : (b : Block) (i v j : ℕ) → (j < i) ⊎ (i + 4 ≤ j) → put_u32 b i v j ≡ b j
unfolding put_u32
put_u32_ne b i v j h = ground arith

-- fields that do not overlap
pub get_u32-put_u32_ne :
    (b : Block) (i v j : ℕ) → (j + 4 ≤ i) ⊎ (i + 4 ≤ j) → get_u32 (put_u32 b i v) j ≡ get_u32 b j
unfolding get_u32
get_u32-put_u32_ne b i v j (inl h) =
    rw
      (
        put_u32_ne b i v j (inl (omega arith)),
        put_u32_ne b i v (j + 1) (inl (omega arith)),
        put_u32_ne b i v (j + 2) (inl (omega arith)),
        put_u32_ne b i v (j + 3) (inl (omega arith)),
      )
      refl
get_u32-put_u32_ne b i v j (inr h) =
    rw
      (
        put_u32_ne b i v j (inr (omega arith)),
        put_u32_ne b i v (j + 1) (inr (omega arith)),
        put_u32_ne b i v (j + 2) (inr (omega arith)),
        put_u32_ne b i v (j + 3) (inr (omega arith)),
      )
      refl

pub get_u32-bounds : (b : Block) (i : ℕ) → get_u32 b i < 2 ^ 32
unfolding get_u32
get_u32-bounds b i = omega arith
