-- ===== src/Dzfs/File.antt =====
-- `dzfs_write` and `dzfs_read` of kernel/src/fs/dzfs.c.
use dz_os.Prelude.{
  ℕ, zero, suc, ◌+◌, ◌-◌, ◌*◌, ◌/◌, ◌%◌, ◌^◌, true, not, Option, none, some, List, [], ◌∷◌, ◌++◌,
  ltb, leb, ◌==◌, if◌then◌else◌, u32, u64, length, take, drop,
}
use dz_os.Prelude.{drop, take}
use dz_os.Dzfs.Block.{
  Block, BlockDevice, DzfsState, DzfsError, zero_block, get_u8, put_u32, header_type, file_size,
  indirect_block, direct_blocks, get_u32, dzfs_direct_blocks, dzfs_block_size, dzfs_max_filesize,
  dzfs_entity_file,
}
use dz_os.Dzfs.Io.{Result, Io, continue_with}
use dz_os.Dzfs.Bitmap.{block_alloc}
use dz_os.Dzfs.Open.{put_bytes, try_io}

abbrev pub min : ℕ → ℕ → ℕ
min x y = if ltb x y then x else y

-- `dnode_block`, `indirect_block` and `data_block` in memory
pub record Buffers : Type 0 where
  pub file : Block
  pub indirect : Block
  pub content : Block

-- the byte of a dnode block or an indirect block at which the number of a file's content block stands
abbrev pub direct_at : ℕ → ℕ
direct_at i = 272 + 4 * i

abbrev pub indirect_at : ℕ → ℕ
indirect_at i = 4 * (i - dzfs_direct_blocks)

-- `n` bytes of a block
unfoldable pub get_bytes : Block → ℕ → ℕ → List ℕ
get_bytes b i zero = []
get_bytes b i (suc n) = get_u8 b i ∷ get_bytes b (suc i) n

-- what a read adds to the bytes of the rounds after it
unfoldable pub read_content : ℕ → ℕ → Option Block → Result (List ℕ) → Result (List ℕ)
read_content at to_copy none rest = Result.failed DzfsError.err_io
read_content at to_copy (some b) (Result.failed e) = Result.failed e
read_content at to_copy (some b) (Result.ok bytes) = Result.ok (get_bytes b at to_copy ++ bytes)

module _ {D : Type 0} (dev : BlockDevice D) where
  -- `get_or_allocate_block` on the number at byte `at` of a block in memory, which it returns as well
  unfoldable pub get_or_allocate_block : DzfsState → Block → ℕ → Io D (ℕ × Block)
  get_or_allocate_block fs from at disk =
      let alloc = block_alloc dev fs disk in
      if get_u32 from at == 0
      then (if alloc.0 == 0
          then (Result.failed DzfsError.err_full, alloc.1)
          else (Result.ok (alloc.0, put_u32 from at alloc.0), alloc.1))
      else (Result.ok (get_u32 from at, from), disk)

  -- the number of the block that holds part `index` of the file
  unfoldable pub content_block : DzfsState → Buffers → ℕ → Io D (ℕ × Buffers)
  content_block fs buffers index disk =
      let with_indirect = get_or_allocate_block fs buffers.file 268 disk in
      if leb dzfs_direct_blocks index
      then continue_with with_indirect (λ r disk.
        continue_with (get_or_allocate_block fs buffers.indirect (indirect_at index) disk)
          (λ s disk. (Result.ok (s.0, record buffers { file = r.1; indirect = s.1 }), disk)))
      else continue_with (get_or_allocate_block fs buffers.file (direct_at index) disk)
          (λ r disk. (Result.ok (r.0, record buffers { file = r.1 }), disk))

  -- the copy into a block that was read, if it had to be, and its write to the disk
  unfoldable pub write_content : ℕ → Buffers → Result Block → ℕ → List ℕ → Io D Buffers
  write_content content buffers (Result.failed e) at bytes disk = (Result.failed e, disk)
  write_content content buffers (Result.ok b) at bytes disk =
      let filled = put_bytes b at bytes in
      let w = dev.write_block content filled disk in
      (
        (if w.0
            then Result.ok (record buffers { content = filled })
            else Result.failed DzfsError.err_io),
        w.1,
      )

  -- a round of the copying loop: the next bytes go into their block, and `next` does the rest
  unfoldable pub write_round :
      DzfsState → Buffers → List ℕ → ℕ → (Buffers → Io D Buffers) → Io D Buffers
  write_round fs buffers bytes offset next disk =
      continue_with (content_block fs buffers (offset / dzfs_block_size) disk) (λ r disk.
        let old =
          if ltb 0 offset then try_io (dev.read_block r.0 disk) else Result.ok (r.1).content in
        continue_with (write_content r.0 r.1 old (offset % dzfs_block_size) bytes disk) next)

  -- The copying loop, on fuel: a round copies at least one byte, so the number of bytes is enough.
  unfoldable pub write_blocks : ℕ → DzfsState → Buffers → List ℕ → ℕ → Io D Buffers
  write_blocks n fs buffers [] offset disk = (Result.ok buffers, disk)
  write_blocks zero fs buffers (x ∷ bytes) offset disk = (Result.failed DzfsError.err_io, disk)
  write_blocks (suc n) fs buffers (x ∷ bytes) offset disk =
      let to_copy = min (dzfs_block_size - offset % dzfs_block_size) (length (x ∷ bytes)) in
      write_round fs buffers (take to_copy (x ∷ bytes)) offset
        (λ buffers disk.
          write_blocks n fs buffers (drop to_copy (x ∷ bytes)) (offset + to_copy) disk)
        disk

  -- the write-back of the indirect block and of the dnode with its new size
  unfoldable pub write_back : ℕ → ℕ → Buffers → Io D Unit
  write_back dnode size buffers disk =
      let w = dev.write_block (indirect_block buffers.file) buffers.indirect disk in
      let after = if indirect_block buffers.file == 0 then (true, disk) else w in
      let grown = put_u32 buffers.file 264 (u32 (file_size buffers.file + size)) in
      let v = dev.write_block dnode grown after.1 in
      if not after.0
      then (Result.failed DzfsError.err_io, after.1)
      else ((if v.0 then Result.ok tt else Result.failed DzfsError.err_io), v.1)

  -- the indirect block of a file, or the zeroed one in memory
  unfoldable pub load_indirect : Block → D → Result Block
  load_indirect file disk =
      if indirect_block file == 0
      then Result.ok zero_block
      else try_io (dev.read_block (indirect_block file) disk)

  unfoldable pub write_loaded : DzfsState → ℕ → List ℕ → ℕ → Block → Result Block → Io D Unit
  write_loaded fs dnode bytes offset file (Result.failed e) disk = (Result.failed e, disk)
  write_loaded fs dnode bytes offset file (Result.ok indirect) disk =
      continue_with
        (write_blocks (length bytes) fs
          (record { file = file; indirect = indirect; content = zero_block }) bytes offset disk)
        (write_back dnode (length bytes))

  unfoldable pub write_file : DzfsState → ℕ → List ℕ → ℕ → Option Block → Io D Unit
  write_file fs dnode bytes offset none disk = (Result.failed DzfsError.err_io, disk)
  write_file fs dnode bytes offset (some file) disk =
      let written = write_loaded fs dnode bytes offset file (load_indirect file disk) disk in
      if not (header_type file == dzfs_entity_file)
      then (Result.failed DzfsError.err_argument, disk)
      else if ltb dzfs_max_filesize (u64 (length bytes + offset))
      then (Result.failed DzfsError.err_limit, disk)
      else if ltb (file_size file) offset
      then (Result.failed DzfsError.err_argument, disk)
      else written

  unfoldable pub dzfs_write : DzfsState → ℕ → List ℕ → ℕ → Io D Unit
  dzfs_write fs dnode bytes offset disk =
      write_file fs dnode bytes offset (dev.read_block dnode disk) disk

  -- The reading loop, on fuel: a round reads at least one byte.
  unfoldable pub read_blocks : ℕ → Block → Block → ℕ → ℕ → D → Result (List ℕ)
  read_blocks zero file indirect to_read offset disk = Result.ok []
  read_blocks (suc n) file indirect to_read offset disk =
      let index = offset / dzfs_block_size in
      let at = offset % dzfs_block_size in
      let content =
        if leb dzfs_direct_blocks index
        then get_u32 indirect (indirect_at index)
        else direct_blocks file index in
      let to_copy = min (dzfs_block_size - at) to_read in
      let rest = read_blocks n file indirect (to_read - to_copy) (offset + to_copy) disk in
      if to_read == 0
      then Result.ok []
      else read_content at to_copy (dev.read_block content disk) rest

  -- `int to_read_bytes`, which a number from 2 ^ 31 on makes negative, so that nothing is read
  unfoldable pub read_loaded : Block → ℕ → ℕ → Result Block → D → Result (List ℕ)
  read_loaded file size offset (Result.failed e) disk = Result.failed e
  read_loaded file size offset (Result.ok indirect) disk =
      let to_read = min (file_size file - offset) size in
      if leb (file_size file) offset
      then Result.ok []
      else if leb (2 ^ 31) to_read
      then Result.ok []
      else read_blocks to_read file indirect to_read offset disk

  unfoldable pub read_file : ℕ → ℕ → Option Block → D → Result (List ℕ)
  read_file size offset none disk = Result.failed DzfsError.err_io
  read_file size offset (some file) disk =
      let got = read_loaded file size offset (load_indirect file disk) disk in
      if header_type file == dzfs_entity_file then got else Result.failed DzfsError.err_argument

  unfoldable pub dzfs_read : ℕ → ℕ → ℕ → D → Result (List ℕ)
  dzfs_read dnode size offset disk = read_file size offset (dev.read_block dnode disk) disk
