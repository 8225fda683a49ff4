-- ===== src/Dzfs/Taken.antt =====
-- What `block_alloc` and `block_free` of kernel/src/fs/dzfs.c do to the blocks that are free.
use dz_os.Prelude.{
  ℕ, ◌*◌, ◌%◌, ◌^◌, ◌≤◌, ◌<◌, ◌≡◌, refl, sym, ◌≢◌, inl, inr, Bool, true, false, not, ◌&&◌, ◌||◌,
  Option, none, some, arith, ◌==◌, Bool-cases,
}
use dz_os.Prelude.{==-eq, is_some}
use dz_os.Dzfs.Block.{Block, BlockDevice, IsBlockDevice, DzfsState}
use dz_os.Dzfs.Bitmap.{
  bitmap_set, bitmap_clear, bitmap_of, find_free, take_block, block_alloc, give_block, block_free,
}
use dz_os.Dzfs.Free.{bit_in, free_bit, Allocated, find_free-free, find_free-none}
use dz_os.Dzfs.Alloc.{bitmap_bit, bit-bitmap_set, bit-bitmap_clear}

module _ {D : Type 0} (dev : BlockDevice D) (laws : IsBlockDevice dev) where
  -- a bitmap written back with bit `dnode` changed, seen through every bit of the disk
  free_bit-write :
      (disk : D) (dnode : ℕ) (old new : Block) (g : Bool → Bool → Bool)
      → dev.read_block (bitmap_of dnode) disk ≡ some old
      → ((k : ℕ) → bitmap_bit new k ≡ g (bitmap_bit old k) (k == dnode % 32768))
      → ((x : Bool) → g x false ≡ x)
      → (dev.write_block (bitmap_of dnode) new disk).0 ≡ true
      → (j : ℕ)
      → free_bit dev (dev.write_block (bitmap_of dnode) new disk).1 j
        ≡ g (free_bit dev disk j) (j == dnode)
  unfolding free_bit bit_in
  free_bit-write disk dnode old new g is changed same ok j =
      elim (Bool-cases (bitmap_of j == bitmap_of dnode)) [
        | inl e ↦
            let at : (j % 32768 == dnode % 32768) ≡ (j == dnode) = ground arith in
            rw
              (
                ==-eq _ _ e,
                laws.read-write_self (bitmap_of dnode) new disk ok,
                is,
                changed (j % 32768),
                at,
              )
              refl
        | inr e ↦
            let other : bitmap_of dnode ≢ bitmap_of j = ground arith in
            let ne : (j == dnode) ≡ false = ground arith in
            rw (laws.read-write_ne (bitmap_of dnode) (bitmap_of j) new disk other, ne, same _) refl
      ]

  take_block-Allocates :
      (fs : DzfsState) (disk : D) (dnode : ℕ) (r : Option Block)
      → dev.read_block (bitmap_of dnode) disk ≡ r
      → free_bit dev disk dnode ≡ true
      → dnode < fs.free_bitmap_blocks * 32768
      → (take_block dev dnode r disk).0 ≢ 0
      → Allocated dev fs disk (take_block dev dnode r disk).0 (take_block dev dnode r disk).1
  unfolding take_block
  take_block-Allocates fs disk dnode none is free below ne = absurd (ne refl)
  take_block-Allocates fs disk dnode (some b) is free below ne =
      let new = bitmap_clear b (dnode % 32768) in
      elim (Bool-cases (dev.write_block (bitmap_of dnode) new disk).0) [
        | inl ok ↦ rw ok (record {
          was_free = free;
          below = below;
          now =
              free_bit-write disk dnode b new (λ x e. x && not e) is
                (λ k. bit-bitmap_clear b (dnode % 32768) k (omega arith)) (λ x. ground arith) ok;
          frame = λ i ne. laws.read-write_ne (bitmap_of dnode) i new disk (λ e. ne (sym e));
        })
        | inr failed ↦ absurd (ne (rw failed refl))
      ]

  -- A block that `block_alloc` returns was free, and is the only one whose bit the call clears.
  pub block_alloc-Allocated :
      (fs : DzfsState) (disk : D)
      → fs.free_bitmap_blocks * 32768 ≤ 2 ^ 32
      → (block_alloc dev fs disk).0 ≢ 0
      → Allocated dev fs disk (block_alloc dev fs disk).0 (block_alloc dev fs disk).1
  unfolding block_alloc
  block_alloc-Allocated fs disk fits ne =
      let dnode = find_free dev 0 fs.free_bitmap_blocks disk in
      elim (Bool-cases (dnode == 0)) [
        | inl at0 ↦ absurd (ne (rw at0 refl))
        | inr ne0 ↦
            let found =
              find_free-free dev 0 fs.free_bitmap_blocks dnode disk refl (ground arith)
                (omega arith) in
            rw ne0 (
              take_block-Allocates fs disk dnode _ refl found.0 (omega (arith, found.1))
                (λ e. ne (rw ne0 e)))
      ]

  take_block-succeeds :
      (dnode : ℕ) (disk : D) (r : Option Block)
      → is_some r ≡ true
      → ((i : ℕ) (b : Block) → (dev.write_block i b disk).0 ≡ true)
      → (take_block dev dnode r disk).0 ≡ dnode
  unfolding take_block
  take_block-succeeds dnode disk none ok writes = ground arith
  take_block-succeeds dnode disk (some b) ok writes =
      rw (writes (bitmap_of dnode) (bitmap_clear b (dnode % 32768))) refl

  -- When every block can be read and written and block 0 is not called free, `block_alloc` fails only if
  -- no block is free.
  pub block_alloc-none :
      (fs : DzfsState) (disk : D)
      → fs.free_bitmap_blocks * 32768 ≤ 2 ^ 32
      → ((i : ℕ) → is_some (dev.read_block i disk) ≡ true)
      → ((i : ℕ) (b : Block) → (dev.write_block i b disk).0 ≡ true)
      → free_bit dev disk 0 ≡ false
      → (block_alloc dev fs disk).0 ≡ 0
      → (j : ℕ) → j < fs.free_bitmap_blocks * 32768
      → free_bit dev disk j ≡ false
  unfolding block_alloc
  block_alloc-none fs disk fits reads writes clear0 failed j hj =
      let dnode = find_free dev 0 fs.free_bitmap_blocks disk in
      elim (Bool-cases (dnode == 0)) [
        | inl at0 ↦
            find_free-none dev 0 fs.free_bitmap_blocks disk (==-eq _ _ at0) reads clear0
              (omega arith) j (omega arith) (omega arith)
        | inr ne0 ↦
            let taken =
              take_block-succeeds dnode disk (dev.read_block (bitmap_of dnode) disk) (reads _)
                writes in
            absurd (ground (arith, taken, failed))
      ]

  -- Giving back a block of a bitmap that can be read and written frees it and no other.
  pub block_free-Frees :
      (disk : D) (dnode : ℕ) (b : Block)
      → dev.read_block (bitmap_of dnode) disk ≡ some b
      → (dev.write_block (bitmap_of dnode) (bitmap_set b (dnode % 32768)) disk).0 ≡ true
      → (j : ℕ) → free_bit dev (block_free dev dnode disk) j ≡ (free_bit dev disk j || (j == dnode))
  unfolding block_free give_block
  block_free-Frees disk dnode b is ok j = rw is (
      free_bit-write disk dnode b (bitmap_set b (dnode % 32768)) (λ x e. x || e) is
        (λ k. bit-bitmap_set b (dnode % 32768) k (omega arith)) (λ x. ground arith) ok j)

  -- Giving back the block that was just taken makes the bitmaps call free what they did before.
  pub block_free-block_alloc :
      (fs : DzfsState) (disk : D) (b : Block)
      → fs.free_bitmap_blocks * 32768 ≤ 2 ^ 32
      → (block_alloc dev fs disk).0 ≢ 0
      → dev.read_block (bitmap_of (block_alloc dev fs disk).0) (block_alloc dev fs disk).1 ≡ some b
      → (dev.write_block
          (bitmap_of (block_alloc dev fs disk).0)
          (bitmap_set b ((block_alloc dev fs disk).0 % 32768))
          (block_alloc dev fs disk).1).0
        ≡ true
      → (j : ℕ)
      → free_bit dev (block_free dev (block_alloc dev fs disk).0 (block_alloc dev fs disk).1) j
        ≡ free_bit dev disk j
  block_free-block_alloc fs disk b fits ne is ok j =
      let taken = block_alloc-Allocated fs disk fits ne in
      let given =
        block_free-Frees (block_alloc dev fs disk).1 (block_alloc dev fs disk).0 b is ok j in
      elim (Bool-cases (j == (block_alloc dev fs disk).0)) [
        | inl e ↦
            let free : free_bit dev disk j ≡ true = rw (==-eq _ _ e) taken.was_free in
            ground (arith, given, free, e)
        | inr e ↦ ground (arith, given, taken.now j)
      ]
