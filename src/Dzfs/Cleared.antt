-- ===== src/Dzfs/Cleared.antt =====
-- The bitmaps that `dzfs_new` of kernel/src/fs/dzfs.c writes, bit by bit.
use dz_os.Prelude.{
  ℕ, zero, suc, ◌+◌, ◌-◌, ◌*◌, ◌/◌, ◌%◌, ◌≤◌, ◌<◌, ◌≡◌, refl, true, false, not, ◌&&◌, arith, ltb,
  leb, ◌==◌,
}
use dz_os.Dzfs.Block.{Block}
use dz_os.Dzfs.Bits.{test_bit, checked, checked_at}
use dz_os.Dzfs.Bitmap.{bitmap_clear}
use dz_os.Dzfs.Alloc.{bitmap_bit, bit-bitmap_clear}
use dz_os.Dzfs.Format.{full_bitmap, clear_up, clear_down, first_bitmap, last_bitmap}

full_table : checked 8 (λ k. test_bit 255 k) ≡ true
unfolding checked
full_table = refl

pub bit-full_bitmap : (j : ℕ) → bitmap_bit full_bitmap j ≡ true
bit-full_bitmap j = checked_at 8 (λ k. test_bit 255 k) (j % 8) full_table (omega arith)

pub bit-clear_up :
    (b : Block) (i n j : ℕ)
    → i + n ≤ 32768
    → bitmap_bit (clear_up b i n) j ≡ (bitmap_bit b j && not (leb i j && ltb j (i + n)))
unfolding clear_up
bit-clear_up b i zero j fits = ground arith
bit-clear_up b i (suc n) j fits = ground (
  arith,
  bit-clear_up (bitmap_clear b i) (suc i) n j (omega arith),
  bit-bitmap_clear b i j (omega arith),
)

pub bit-clear_down :
    (b : Block) (blocks n j : ℕ)
    → blocks + n ≤ 32768
    → bitmap_bit (clear_down b blocks n) j
      ≡ (bitmap_bit b j && not (leb blocks j && ltb j (blocks + n)))
unfolding clear_down
bit-clear_down b blocks zero j fits = ground arith
bit-clear_down b blocks (suc n) j fits = ground (
  arith,
  bit-clear_down (bitmap_clear b (blocks + n)) blocks n j (omega arith),
  bit-bitmap_clear b (blocks + n) j (omega arith),
)

-- numbers that the bitmap block does not cover are not cleared
pub clear_down-beyond : (b : Block) (blocks n : ℕ) → 32768 ≤ blocks → clear_down b blocks n ≡ b
unfolding clear_down bitmap_clear
clear_down-beyond b blocks zero far = refl
clear_down-beyond b blocks (suc n) far =
    let outside : leb 4096 ((blocks + n) / 8) ≡ true = ground arith in
    rw (outside, clear_down-beyond b blocks n far) refl

-- the first bitmap: the boot block, the superblock, the bitmaps and the root are taken
pub bit-first_bitmap : (n j : ℕ) → n + 3 ≤ 32768 → bitmap_bit (first_bitmap n) j ≡ leb (n + 3) j
unfolding first_bitmap
bit-first_bitmap n j fits =
    ground (arith, bit-clear_up full_bitmap 0 (n + 3) j (omega arith), bit-full_bitmap j)

pub bit-last_bitmap_one :
    (blocks j : ℕ)
    → blocks ≤ 32768
    → j < 32768
    → bitmap_bit (last_bitmap 1 blocks) j ≡ (leb 4 j && ltb j blocks)
unfolding last_bitmap
bit-last_bitmap_one blocks j fits hj = ground (
  arith,
  bit-clear_down (first_bitmap 1) blocks (32768 * 1 - blocks) j (omega arith),
  bit-first_bitmap 1 j (omega arith),
)

pub last_bitmap-full :
    (n blocks : ℕ) → 32768 ≤ blocks → (n == 1) ≡ false → last_bitmap n blocks ≡ full_bitmap
unfolding last_bitmap
last_bitmap-full n blocks many ne = rw ne (clear_down-beyond full_bitmap blocks _ many)
