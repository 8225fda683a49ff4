-- ===== src/Dzfs/Layout.antt =====
-- What `dzfs_new` of kernel/src/fs/dzfs.c leaves on the disk.
use dz_os.Prelude.{
  ℕ, u32, zero, suc, ◌+◌, ◌-◌, ◌*◌, ◌%◌, ◌^◌, ◌≤◌, ◌<◌, ◌≡◌, refl, sym, ap, subst, ◌∙◌, ◌≢◌, ◌⊎◌,
  inl, inr, true, false, not, ◌&&◌, ◌||◌, some, [], ◌∷◌, arith, ltb, leb, ◌==◌, if◌then◌else◌,
  Bool-cases,
}
use dz_os.Prelude.{==-eq}
use dz_os.Dzfs.Block.{
  put_u32, get_u32, zero_block, get_u32-put_u32_self, Block, BlockDevice, IsBlockDevice, DzfsState,
  DzfsError,
}
use dz_os.Dzfs.Io.{Result, continue_with-ok, guard-ok, is_ok}
use dz_os.Dzfs.Bitmap.{bitmap_of}
use dz_os.Dzfs.Alloc.{bitmap_bit}
use dz_os.Dzfs.Free.{free_bit, bit_in}
use dz_os.Dzfs.Open.{put_bytes, new_dnode, then_try, try_io}
use dz_os.Dzfs.Format.{
  bitmap_blocks, full_bitmap, first_bitmap, last_bitmap, write_or_fail, write_full, write_layout,
  dzfs_new, dzfs_init, dzfs_magic, load_superblock, starts_with, superblock,
}
use dz_os.Dzfs.Cleared.{bit-full_bitmap, bit-first_bitmap, bit-last_bitmap_one, last_bitmap-full}

state_in : Result DzfsState → DzfsState
state_in (Result.failed e) = record { blocks = 0; free_bitmap_blocks = 0; root_dnode = 0 }
state_in (Result.ok fs) = fs

abbrev layout_state : ℕ → ℕ → DzfsState
layout_state blocks n = record { blocks = blocks; free_bitmap_blocks = n; root_dnode = 2 + n }

superblock-magic : (blocks : ℕ) → starts_with (superblock blocks) 0 dzfs_magic ≡ true
unfolding starts_with superblock put_u32 put_bytes
superblock-magic blocks = refl

superblock-blocks : (blocks : ℕ) → blocks < 2 ^ 32 → get_u32 (superblock blocks) 8 ≡ blocks
unfolding superblock
superblock-blocks blocks h =
    get_u32-put_u32_self (put_u32 (put_bytes zero_block 0 dzfs_magic) 4 1) 8 blocks h

load_superblock-superblock :
    (blocks : ℕ)
    → blocks < 2 ^ 32
    → load_superblock (superblock blocks) ≡ Result.ok (layout_state blocks (bitmap_blocks blocks))
unfolding load_superblock
load_superblock-superblock blocks h = rw (superblock-magic blocks, superblock-blocks blocks h) refl

module _ {D : Type 0} (dev : BlockDevice D) (laws : IsBlockDevice dev) where
  write_or_fail-reads :
      (i : ℕ) (b : Block) (disk after : D)
      → write_or_fail dev i b disk ≡ (Result.ok tt, after)
      → (dev.read_block i after ≡ some b)
        × ((j : ℕ) → i ≢ j → dev.read_block j after ≡ dev.read_block j disk)
  unfolding write_or_fail
  write_or_fail-reads i b disk after e = elim (Bool-cases (dev.write_block i b disk).0) [
    | inl ok ↦
        let at : (dev.write_block i b disk).1 ≡ after = ap (λ p. p.1) e in
        (
          subst (λ d. dev.read_block i d ≡ some b) at (laws.read-write_self i b disk ok),
          λ j ne.
              subst (λ d. dev.read_block j d ≡ dev.read_block j disk) at
                (laws.read-write_ne i j b disk ne),
        )
    | inr bad ↦
        let same : is_ok (
              if (dev.write_block i b disk).0 then Result.ok tt else Result.failed DzfsError.err_io)
            ≡ true =
          ap (λ p. is_ok p.0) e in
        let differ : is_ok (
              if (dev.write_block i b disk).0 then Result.ok tt else Result.failed DzfsError.err_io)
            ≡ false =
          rw bad refl in
        absurd (ground (arith, same, differ))
  ]

  write_full-reads :
      (i n : ℕ) (disk after : D)
      → write_full dev i n disk ≡ (Result.ok tt, after)
      → ((j : ℕ) → i ≤ j → j < i + n → dev.read_block j after ≡ some full_bitmap)
        × ((j : ℕ) → (j < i) ⊎ (i + n ≤ j) → dev.read_block j after ≡ dev.read_block j disk)
  unfolding write_full
  write_full-reads i zero disk after e =
      (λ j low high. absurd (omega arith), λ j out. ap (λ p. dev.read_block j p.1) (sym e))
  write_full-reads i (suc n) disk after e =
      let s =
        continue_with-ok (write_or_fail dev i full_bitmap disk)
          (λ done d. write_full dev (suc i) n d) tt after e in
      let first = write_or_fail-reads i full_bitmap disk s.1 s.2 in
      let rest = write_full-reads (suc i) n s.1 after s.3 in
      (
        λ j low high. elim (Bool-cases (i == j)) [
          | inl same ↦
              let at : i ≡ j = ==-eq i j same in
              rest.1 j (inl (omega arith)) ∙ ap (λ k. dev.read_block k s.1) (sym at) ∙ first.0
          | inr ne ↦ rest.0 j (ground arith) (omega arith)
        ],
        λ j out. rest.1 j (omega arith) ∙ first.1 j (omega arith),
      )

  -- where the bitmaps end up
  write_layout-reads :
      (blocks n : ℕ) (fs : DzfsState) (disk after : D)
      → write_layout dev blocks n disk ≡ (Result.ok fs, after)
      → n ≢ 0
      → n < 2 ^ 32
      → (fs.free_bitmap_blocks ≡ n)
        × (fs.blocks ≡ blocks)
        × (fs.root_dnode ≡ 2 + n)
        × (dev.read_block 1 after ≡ dev.read_block 1 disk)
        × (dev.read_block (2 + n - 1) after ≡ some (last_bitmap n blocks))
        × (n ≢ 1 → dev.read_block 2 after ≡ some (first_bitmap n))
        × ((i : ℕ) → 3 ≤ i → i < n + 1 → dev.read_block i after ≡ some full_bitmap)
        × (Result.ok (layout_state blocks n) ≡ Result.ok fs)
  unfolding write_layout state_in
  write_layout-reads blocks n fs disk after e nz few =
      let s = continue_with-ok (write_full dev 3 (u32 (n + (2 ^ 32 - 1)) - 1) disk) _ fs after e in
      let t = continue_with-ok (write_or_fail dev 2 (first_bitmap n) s.1) _ fs after s.3 in
      let u =
        continue_with-ok (write_or_fail dev (2 + n - 1) (last_bitmap n blocks) t.1) _ fs after
          t.3 in
      let v =
        continue_with-ok
          (write_or_fail dev (2 + n) (new_dnode (dev.current_date u.1) (47 ∷ []) true (2 + n)) u.1)
          _ fs after u.3 in
      let full = write_full-reads 3 (u32 (n + (2 ^ 32 - 1)) - 1) disk s.1 s.2 in
      let first = write_or_fail-reads 2 (first_bitmap n) s.1 t.1 t.2 in
      let last = write_or_fail-reads (2 + n - 1) (last_bitmap n blocks) t.1 u.1 u.2 in
      let root =
        write_or_fail-reads (2 + n) (new_dnode (dev.current_date u.1) (47 ∷ []) true (2 + n)) u.1
          v.1 v.2 in
      let end : v.1 ≡ after = ap (λ p. p.1) v.3 in
      (
        sym (ap (λ p. (state_in p.0).free_bitmap_blocks) v.3),
        sym (ap (λ p. (state_in p.0).blocks) v.3),
        sym (ap (λ p. (state_in p.0).root_dnode) v.3),
        ap (λ d. dev.read_block 1 d) (sym end)
            ∙ root.1 1 (omega arith)
            ∙ last.1 1 (omega arith)
            ∙ first.1 1 (omega arith)
            ∙ full.1 1 (inl (omega arith)),
        ap (λ d. dev.read_block (2 + n - 1) d) (sym end)
            ∙ root.1 (2 + n - 1) (omega arith)
            ∙ last.0,
        λ many.
            ap (λ d. dev.read_block 2 d) (sym end)
            ∙ root.1 2 (omega arith)
            ∙ last.1 2 (omega arith)
            ∙ first.0,
        λ i low high.
            ap (λ d. dev.read_block i d) (sym end)
            ∙ root.1 i (omega arith)
            ∙ last.1 i (omega arith)
            ∙ first.1 i (omega arith)
            ∙ full.0 i low (omega arith),
        ap (λ p. p.0) v.3,
      )

  read-free_bit :
      (disk : D) (b : Block) (j : ℕ)
      → dev.read_block (bitmap_of j) disk ≡ some b
      → free_bit dev disk j ≡ bitmap_bit b (j % 32768)
  unfolding free_bit bit_in
  read-free_bit disk b j is = rw is refl

  layout-free_bit :
      (blocks n : ℕ) (fs : DzfsState) (disk after : D)
      → write_layout dev blocks n disk ≡ (Result.ok fs, after)
      → n ≢ 0
      → ((n == 1) ≡ true → blocks ≤ 32768)
      → ((n == 1) ≡ false → 32768 ≤ blocks)
      → n + 3 ≤ 32768
      → (j : ℕ) → j < n * 32768
      → free_bit dev after j ≡ (leb (n + 3) j && (ltb j blocks || not (n == 1)))
  layout-free_bit blocks n fs disk after e nz few lots fits j hj =
      let at = write_layout-reads blocks n fs disk after e nz (omega arith) in
      elim (Bool-cases (n == 1)) [
        | inl one ↦
            let is1 : n ≡ 1 = ==-eq n 1 one in
            let here : bitmap_of j ≡ 2 + n - 1 = omega arith in
            let is : dev.read_block (bitmap_of j) after ≡ some (last_bitmap 1 blocks) =
              ap (λ k. dev.read_block k after) here
              ∙ at.4
              ∙ ap (λ k. some (last_bitmap k blocks)) is1 in
            let same : j % 32768 ≡ j = omega arith in
            let got =
              read-free_bit after (last_bitmap 1 blocks) j is
              ∙ ap (bitmap_bit (last_bitmap 1 blocks)) same in
            ground (arith, got, bit-last_bitmap_one blocks j (few one) (omega arith), one)
        | inr many ↦ elim (Bool-cases (bitmap_of j == 2)) [
          | inl low ↦
              let ne : n ≢ 1 = ground arith in
              let same : j % 32768 ≡ j = ground arith in
              let is = ap (λ k. dev.read_block k after) (==-eq (bitmap_of j) 2 low) ∙ at.5 ne in
              let got =
                read-free_bit after (first_bitmap n) j is ∙ ap (bitmap_bit (first_bitmap n)) same in
              ground (arith, got, bit-first_bitmap n j fits, many)
          | inr high ↦
              let far : n + 3 ≤ j = ground arith in
              let is : dev.read_block (bitmap_of j) after ≡ some full_bitmap =
                elim (Bool-cases (bitmap_of j == 2 + n - 1)) [
                  | inl end ↦
                      ap (λ k. dev.read_block k after) (==-eq (bitmap_of j) (2 + n - 1) end)
                      ∙ at.4
                      ∙ ap some (last_bitmap-full n blocks (lots many) many)
                  | inr mid ↦ at.6 (bitmap_of j) (ground arith) (ground arith)
                ] in
              let got = read-free_bit after full_bitmap j is ∙ bit-full_bitmap (j % 32768) in
              ground (arith, got, many)
        ]
      ]

  dzfs_new-steps :
      (fs : DzfsState) (disk after : D)
      → dzfs_new dev disk ≡ (Result.ok fs, after)
      → (leb dev.total_blocks 4 ≡ false)
        × (done : Unit) × (d : D) × (write_or_fail dev 1 (superblock dev.total_blocks) disk
            ≡ (Result.ok done, d))
        × (write_layout dev dev.total_blocks (bitmap_blocks dev.total_blocks) d
            ≡ (Result.ok fs, after))
  unfolding dzfs_new
  dzfs_new-steps fs disk after e =
      let g = guard-ok (leb dev.total_blocks 4) _ disk _ fs after e in
      let s =
        continue_with-ok (write_or_fail dev 1 (superblock dev.total_blocks) disk) _ fs after g.1 in
      let h =
        guard-ok (leb dev.total_blocks (3 + bitmap_blocks dev.total_blocks)) _ s.1 _ fs after s.3 in
      (g.0, s.0, s.1, s.2, h.1)

  -- A disk that `dzfs_new` has formatted calls exactly the blocks behind the root folder free; the end of
  -- the disk is respected when one bitmap covers it, and with more bitmaps every number up to the end of
  -- the last bitmap is called free. The conditions: the first bitmap covers the root, and there are at
  -- most 2 ^ 32 - 32768 blocks.
  pub dzfs_new-free_bit :
      (fs : DzfsState) (disk after : D)
      → dzfs_new dev disk ≡ (Result.ok fs, after)
      → dev.total_blocks + 32768 ≤ 2 ^ 32
      → fs.free_bitmap_blocks + 3 ≤ 32768
      → (j : ℕ) → j < fs.free_bitmap_blocks * 32768
      → free_bit dev after j ≡ (
          leb (fs.root_dnode + 1) j && (ltb j dev.total_blocks || not (fs.free_bitmap_blocks == 1)))
  dzfs_new-free_bit fs disk after e small fits j hj =
      let blocks = dev.total_blocks in
      let n = bitmap_blocks blocks in
      let s = dzfs_new-steps fs disk after e in
      let nz : n ≢ 0 = ground (arith, s.0) in
      let at = write_layout-reads blocks n fs s.2 after s.4 nz (omega arith) in
      let got =
        layout-free_bit blocks n fs s.2 after s.4 nz (λ one. ground (arith, one))
          (λ many. ground (arith, many)) (omega (arith, at.0)) j (omega (arith, at.0)) in
      ground (arith, got, at.0, at.2)

  -- `dzfs_init` of a disk that `dzfs_new` has formatted returns the state that `dzfs_new` left.
  pub dzfs_init-dzfs_new :
      (fs : DzfsState) (disk after : D)
      → dzfs_new dev disk ≡ (Result.ok fs, after)
      → dev.total_blocks + 32768 ≤ 2 ^ 32
      → dzfs_init dev after ≡ Result.ok fs
  unfolding dzfs_init then_try try_io
  dzfs_init-dzfs_new fs disk after e small =
      let blocks = dev.total_blocks in
      let n = bitmap_blocks blocks in
      let s = dzfs_new-steps fs disk after e in
      let nz : n ≢ 0 = ground (arith, s.0) in
      let at = write_layout-reads blocks n fs s.2 after s.4 nz (omega arith) in
      let super = write_or_fail-reads 1 (superblock blocks) disk s.2 s.3 in
      rw (at.3, super.0) (load_superblock-superblock blocks (omega arith) ∙ at.7)
