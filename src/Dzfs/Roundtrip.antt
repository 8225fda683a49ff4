-- ===== src/Dzfs/Roundtrip.antt =====
-- What `dzfs_write` of kernel/src/fs/dzfs.c puts into a file, `dzfs_read` returns.
use dz_os.Prelude.{
  ℕ, zero, suc, ◌+◌, ◌-◌, ◌*◌, ◌/◌, ◌%◌, ◌^◌, ◌≤◌, ◌<◌, ◌≡◌, refl, sym, ap, ◌∙◌, ◌≢◌, inl, inr,
  false, not, some, List, [], ◌∷◌, ◌++◌, arith, ltb, leb, ◌==◌, u8, u32, u64, length, All,
}
use dz_os.Prelude.{All}
use dz_os.Dzfs.Block.{
  Block, BlockDevice, IsBlockDevice, DzfsState, zero_block, put_u32, get_u32-put_u32_self,
  get_u32-put_u32_ne, put_u32_ne, header_type, file_size, indirect_block, direct_blocks,
}
use dz_os.Dzfs.Free.{free_bit}
use dz_os.Dzfs.Io.{Result, guard-ok, continue_with, continue_with-ok}
use dz_os.Dzfs.Open.{put_bytes}
use dz_os.Dzfs.Reread.{IsByte, get_bytes-put_bytes, write_back-ok, one_round, Got}
use dz_os.Dzfs.File.{
  min, Buffers, get_bytes, direct_at, write_blocks, write_back, load_indirect, write_loaded,
  write_file, dzfs_write, read_content, read_blocks, read_loaded, read_file, dzfs_read,
}

append-nil : (xs : List ℕ) → xs ++ [] ≡ xs
append-nil [] = refl
append-nil (x ∷ xs) = ap (λ t. x ∷ t) (append-nil xs)

module _ {D : Type 0} (dev : BlockDevice D) where
  read_blocks-done :
      (n : ℕ) (file indirect : Block) (offset : ℕ) (disk : D)
      → read_blocks dev n file indirect 0 offset disk ≡ Result.ok []
  unfolding read_blocks
  read_blocks-done zero file indirect offset disk = refl
  read_blocks-done (suc n) file indirect offset disk = refl

  -- a read that stays in one block
  one_read :
      (n : ℕ) (file indirect b : Block) (offset : ℕ) (disk : D)
      → 0 < n
      → offset % 4096 + n ≤ 4096
      → offset / 4096 < 956
      → dev.read_block (direct_blocks file (offset / 4096)) disk ≡ some b
      → read_blocks dev n file indirect n offset disk ≡ Result.ok (get_bytes b (offset % 4096) n)
  unfolding read_blocks read_content
  one_read zero file indirect b offset disk some_byte inside low is = absurd (omega arith)
  one_read (suc n) file indirect b offset disk some_byte inside low is =
      let whole : min (4096 - offset % 4096) (suc n) ≡ suc n = ground arith in
      let direct : leb 956 (offset / 4096) ≡ false = ground arith in
      let left : suc n - suc n ≡ 0 = omega arith in
      let nonzero : (suc n == 0) ≡ false = ground arith in
      rw (whole, direct, left, nonzero, is, read_blocks-done n file indirect (offset + suc n) disk)
        (ap Result.ok (append-nil (get_bytes b (offset % 4096) (suc n))))

  -- The file that a write leaves reads back.
  read_file-block :
      (n : ℕ) (file b : Block) (offset dnode : ℕ) (disk : D)
      → dev.read_block dnode disk ≡ some file
      → header_type file ≡ 1
      → indirect_block file ≡ 0
      → offset + n ≤ file_size file
      → 0 < n
      → offset % 4096 + n ≤ 4096
      → offset / 4096 < 956
      → dev.read_block (direct_blocks file (offset / 4096)) disk ≡ some b
      → dzfs_read dev dnode n offset disk ≡ Result.ok (get_bytes b (offset % 4096) n)
  unfolding dzfs_read read_file read_loaded load_indirect
  read_file-block n file b offset dnode disk is type_is no_indirect inside some_byte one low
        content =
      let asked : min (file_size file - offset) n ≡ n = ground arith in
      let not_end : leb (file_size file) offset ≡ false = ground arith in
      let fits : leb (2 ^ 31) n ≡ false = ground arith in
      rw (is, type_is, no_indirect, asked, not_end, fits)
        (one_read n file zero_block b offset disk some_byte one low content)

  module _ (laws : IsBlockDevice dev) (fs : DzfsState) where
    write_file-ok :
        (dnode : ℕ) (bytes : List ℕ) (offset : ℕ) (file : Block) (disk after : D)
        → indirect_block file ≡ 0
        → write_file dev fs dnode bytes offset (some file) disk ≡ (Result.ok tt, after)
        → (header_type file ≡ 1)
          × (offset ≤ file_size file)
          × (continue_with
                (write_blocks dev
                  (length bytes)
                  fs
                  (record { file = file; indirect = zero_block; content = zero_block })
                  bytes
                  offset
                  disk)
                (write_back dev dnode (length bytes))
              ≡ (Result.ok tt, after))
    unfolding write_file load_indirect write_loaded
    write_file-ok dnode bytes offset file disk after no_indirect e =
        let g = guard-ok (not (header_type file == 1)) _ disk _ tt after e in
        let h =
          guard-ok (ltb (4096 * (1024 + 956)) (u64 (length bytes + offset))) _ disk _ tt after
            g.1 in
        let k = guard-ok (ltb (file_size file) offset) _ disk _ tt after h.1 in
        (ground (arith, g.0), ground (arith, k.0), rw no_indirect at k.1)

    -- What `dzfs_write` has written, `dzfs_read` returns: of a file without an indirect block, for a write of
    -- at least one byte that stays in one of the direct blocks. The dnode's own block is taken in the bitmaps
    -- and is not the block written to, and the size stays below 2 ^ 31.
    pub dzfs_read-dzfs_write :
        (dnode : ℕ) (bytes : List ℕ) (offset : ℕ) (file : Block) (disk after : D)
        → fs.free_bitmap_blocks * 32768 ≤ 2 ^ 32
        → dev.read_block dnode disk ≡ some file
        → indirect_block file ≡ 0
        → free_bit dev disk dnode ≡ false
        → direct_blocks file (offset / 4096) ≢ dnode
        → All IsByte bytes
        → 0 < length bytes
        → offset % 4096 + length bytes ≤ 4096
        → offset / 4096 < 956
        → file_size file + length bytes < 2 ^ 31
        → dzfs_write dev fs dnode bytes offset disk ≡ (Result.ok tt, after)
        → dzfs_read dev dnode (length bytes) offset after ≡ Result.ok bytes
    unfolding dzfs_write
    dzfs_read-dzfs_write dnode bytes offset file disk after fits is no_indirect used other chars
          some_byte one low small e =
        let w = write_file-ok dnode bytes offset file disk after no_indirect (rw is at e) in
        let buffers : Buffers = record {
          file = file;
          indirect = zero_block;
          content = zero_block;
        } in
        let s =
          continue_with-ok (write_blocks dev (length bytes) fs buffers bytes offset disk)
            (write_back dev dnode (length bytes)) tt after w.2 in
        let r =
          one_round dev laws fs buffers s.0 bytes offset disk s.1 fits some_byte one low s.2 in
        let got : Got dev laws fs file (direct_at (offset / 4096)) disk (r.0, (s.0).file) = r.2 in
        let kept : indirect_block (s.0).file ≡ 0 = got.fields 268 (omega arith) ∙ no_indirect in
        let back = write_back-ok dev laws fs dnode (length bytes) s.0 s.1 after kept s.3 in
        let size = u32 (file_size (s.0).file + length bytes) in
        let grown = put_u32 (s.0).file 264 size in
        let old_size : file_size (s.0).file ≡ file_size file = got.fields 264 (omega arith) in
        let grows : file_size grown ≡ file_size file + length bytes =
          get_u32-put_u32_self (s.0).file 264 size (omega arith) ∙ omega (arith, old_size) in
        let type_is : header_type grown ≡ 1 =
          ap u8 (put_u32_ne (s.0).file 264 size 0 (inl (omega arith)) ∙ got.bytes 0 (omega arith))
          ∙ w.0 in
        let no_more : indirect_block grown ≡ 0 =
          get_u32-put_u32_ne (s.0).file 264 size 268 (inr (omega arith)) ∙ kept in
        let block_is : direct_blocks grown (offset / 4096) ≡ r.0 =
          get_u32-put_u32_ne (s.0).file 264 size (direct_at (offset / 4096)) (inr (omega arith))
          ∙ got.stored in
        let apart : dnode ≢ r.0 = λ e. elim got.origin [
          | inl old ↦ other (sym (e ∙ old))
          | inr free ↦ absurd (ground (arith, free, used, ap (free_bit dev disk) e))
        ] in
        let content = ap (λ c. dev.read_block c after) block_is ∙ back.1 r.0 apart ∙ r.3 in
        read_file-block (length bytes) grown (put_bytes r.1 (offset % 4096) bytes) offset dnode
          after back.0 type_is no_more (omega (arith, grows, w.1)) some_byte one low content
        ∙ ap Result.ok (get_bytes-put_bytes r.1 (offset % 4096) bytes chars)
