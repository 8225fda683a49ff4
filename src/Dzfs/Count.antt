-- ===== src/Dzfs/Count.antt =====
-- The number of free blocks that `dzfs_free_blocks` of kernel/src/fs/dzfs.c reports.
use dz_os.Prelude.{
  ℕ, zero, suc, ◌+◌, ◌*◌, ◌/◌, ◌%◌, ◌^◌, ◌≤◌, ◌<◌, ◌≡◌, refl, sym, ap, ◌∙◌, ◌≢◌, inl, inr, Bool,
  true, false, not, ◌&&◌, Option, none, some, arith, ◌==◌, if◌then◌else◌, u32, Bool-cases,
}
use dz_os.Prelude.{==-eq, is_some}
use dz_os.Dzfs.Block.{Block, BlockDevice, IsBlockDevice, DzfsState, get_u8}
use dz_os.Dzfs.Bits.{test_bit, ones, popcount-ones, checked, checked_at}
use dz_os.Dzfs.Bitmap.{
  block_alloc, count_bytes, count_block, add_byte, count_blocks, dzfs_free_blocks, bitmap_of,
}
use dz_os.Dzfs.Alloc.{bitmap_bit}
use dz_os.Dzfs.Free.{free_bit, bit_in}
use dz_os.Dzfs.Taken.{block_alloc-Allocated}

-- how many of the `n` numbers from `i` have the property
unfoldable pub count : (ℕ → Bool) → ℕ → ℕ → ℕ
count p i zero = 0
count p i (suc n) = (if p i then 1 else 0) + count p (suc i) n

count-append : (p : ℕ → Bool) (i m n : ℕ) → count p i (m + n) ≡ count p i m + count p (i + m) n
unfolding count
count-append p i zero n =
    let e : i + 0 ≡ i = omega arith in let z : 0 + n ≡ n = omega arith in rw (e, z) (omega arith)
count-append p i (suc m) n =
    let e : suc m + n ≡ suc (m + n) = omega arith in
    let s : i + suc m ≡ suc i + m = omega arith in
    rw (e, s, count-append p (suc i) m n) (omega arith)

count-zero : (p : ℕ → Bool) (i : ℕ) → count p i 0 ≡ 0
unfolding count
count-zero p i = refl

count_le : (p : ℕ → Bool) (i n : ℕ) → count p i n ≤ n
unfolding count
count_le p i zero = omega arith
count_le p i (suc n) = ground (arith, count_le p (suc i) n)

pub count-ext :
    (p q : ℕ → Bool) (i j n : ℕ)
    → ((k : ℕ) → k < n → p (i + k) ≡ q (j + k))
    → count p i n ≡ count q j n
unfolding count
count-ext p q i j zero h = refl
count-ext p q i j (suc n) h =
    let i0 : i + 0 ≡ i = omega arith in
    let j0 : j + 0 ≡ j = omega arith in
    let here : p i ≡ q j = ap p (sym i0) ∙ h 0 (omega arith) ∙ ap q j0 in
    rw
      (
        here,
        count-ext p q (suc i) (suc j) n (λ k hk.
            let is : suc i + k ≡ i + suc k = omega arith in
            let js : suc j + k ≡ j + suc k = omega arith in
            ap p is ∙ h (suc k) (omega arith) ∙ ap q (sym js)),
      )
      refl

byte_table : checked 256 (λ x. count (test_bit x) 0 8 == ones 8 x) ≡ true
unfolding checked count ones
byte_table = refl

count-test_bit : (x : ℕ) → x < 256 → count (test_bit x) 0 8 ≡ ones 8 x
count-test_bit x h = ==-eq _ _ (checked_at 256 _ x byte_table h)

count-byte : (b : Block) (i : ℕ) → count (bitmap_bit b) (8 * i) 8 ≡ ones 8 (get_u8 b i)
count-byte b i =
    count-ext (bitmap_bit b) (test_bit (get_u8 b i)) (8 * i) 0 8 (λ k hk.
      let at : (8 * i + k) / 8 ≡ i = omega arith in
      let low : (8 * i + k) % 8 ≡ k = omega arith in
      let zero_add : 0 + k ≡ k = omega arith in rw (at, low, zero_add) refl)
    ∙ count-test_bit (get_u8 b i) (omega arith)

count_bytes-count :
    (b : Block) (i n sum : ℕ)
    → sum + 8 * n < 2 ^ 32
    → count_bytes b i n sum ≡ some (sum + count (bitmap_bit b) (8 * i) (8 * n))
unfolding count_bytes add_byte
count_bytes-count b i zero sum h = ap some (omega (arith, count-zero (bitmap_bit b) (8 * i)))
count_bytes-count b i (suc n) sum h =
    let few : ones 8 (get_u8 b i) ≤ 8 =
      omega (arith, count-byte b i, count_le (bitmap_bit b) (8 * i) 8) in
    let small : u32 (sum + ones 8 (get_u8 b i)) ≡ sum + ones 8 (get_u8 b i) = omega arith in
    let m : 8 * suc n ≡ 8 + 8 * n = omega arith in
    let s : 8 * suc i ≡ 8 * i + 8 = omega arith in
    rw
      (
        popcount-ones (get_u8 b i) (omega arith),
        small,
        count_bytes-count b (suc i) n (sum + ones 8 (get_u8 b i)) (omega arith),
        m,
        count-append (bitmap_bit b) (8 * i) 8 (8 * n),
        count-byte b i,
        s,
      )
      (ap some (omega arith))

-- One number less has the property.
count-remove :
    (p q : ℕ → Bool) (d i n : ℕ)
    → ((j : ℕ) → q j ≡ (p j && not (j == d)))
    → p d ≡ true
    → i ≤ d
    → d < i + n
    → suc (count q i n) ≡ count p i n
unfolding count
count-remove p q d i zero h free low high = absurd (omega arith)
count-remove p q d i (suc n) h free low high = elim (Bool-cases (i == d)) [
  | inl e ↦
      let at : i ≡ d = ==-eq i d e in
      let rest : count q (suc i) n ≡ count p (suc i) n = count-ext q p (suc i) (suc i) n (λ k hk.
        let other : (suc i + k == d) ≡ false = ground arith in
        ground (arith, h (suc i + k), other)) in
      let has : p i ≡ true = ap p at ∙ free in ground (arith, rest, h i)
  | inr e ↦
      let apart : i ≢ d = ground arith in
      ground (arith, h i, count-remove p q d (suc i) n h free (omega arith) (omega arith))
]

module _ {D : Type 0} (dev : BlockDevice D) where
  count_block-count :
      (block sum : ℕ) (disk : D) (r : Option Block)
      → dev.read_block (block + 2) disk ≡ r
      → is_some r ≡ true
      → sum + 32768 < 2 ^ 32
      → count_block r sum ≡ some (sum + count (free_bit dev disk) (32768 * block) 32768)
  unfolding count_block free_bit bit_in
  count_block-count block sum disk none is ok fits = ground arith
  count_block-count block sum disk (some b) is ok fits =
      count_bytes-count b 0 4096 sum (omega arith)
      ∙ ap some (
          ap (λ n. sum + n)
            (count-ext (bitmap_bit b) (free_bit dev disk) 0 (32768 * block) 32768 (λ k hk.
              let at : bitmap_of (32768 * block + k) ≡ block + 2 = omega arith in
              let low : (32768 * block + k) % 32768 ≡ 0 + k = omega arith in
              rw (at, is, low) refl)))

  count_blocks-count :
      (block n sum : ℕ) (disk : D)
      → ((i : ℕ) → is_some (dev.read_block i disk) ≡ true)
      → sum + 32768 * n < 2 ^ 32
      → count_blocks dev block n disk sum
        ≡ some (sum + count (free_bit dev disk) (32768 * block) (32768 * n))
  unfolding count_blocks
  count_blocks-count block zero sum disk reads fits =
      ap some (omega (arith, count-zero (free_bit dev disk) (32768 * block)))
  count_blocks-count block (suc n) sum disk reads fits =
      let m : 32768 * suc n ≡ 32768 + 32768 * n = omega arith in
      let s : 32768 * suc block ≡ 32768 * block + 32768 = omega arith in
      let few = count_le (free_bit dev disk) (32768 * block) 32768 in
      rw
        (
          count_block-count block sum disk (dev.read_block (block + 2) disk) refl (reads _)
              (omega arith),
          count_blocks-count (suc block) n (sum + count (free_bit dev disk) (32768 * block) 32768)
              disk reads (omega (arith, few)),
          m,
          count-append (free_bit dev disk) (32768 * block) 32768 (32768 * n),
          s,
        )
        (ap some (omega arith))

  -- When every block can be read, `dzfs_free_blocks` returns, and what it returns is the number of blocks
  -- that the bitmaps call free.
  pub free_blocks-count :
      (fs : DzfsState) (disk : D)
      → ((i : ℕ) → is_some (dev.read_block i disk) ≡ true)
      → fs.free_bitmap_blocks * 32768 < 2 ^ 32
      → dzfs_free_blocks dev fs disk
        ≡ some (count (free_bit dev disk) 0 (32768 * fs.free_bitmap_blocks))
  unfolding dzfs_free_blocks
  free_blocks-count fs disk reads fits =
      count_blocks-count 0 fs.free_bitmap_blocks 0 disk reads (omega arith) ∙ ap some (omega arith)

  -- On a disk whose blocks can always be read, a successful `block_alloc` makes `dzfs_free_blocks` report
  -- one block less.
  pub free_blocks-block_alloc :
      (fs : DzfsState) (disk : D) (n : ℕ)
      → IsBlockDevice dev
      → ((i : ℕ) (any : D) → is_some (dev.read_block i any) ≡ true)
      → fs.free_bitmap_blocks * 32768 < 2 ^ 32
      → (block_alloc dev fs disk).0 ≢ 0
      → dzfs_free_blocks dev fs (block_alloc dev fs disk).1 ≡ some n
      → dzfs_free_blocks dev fs disk ≡ some (suc n)
  free_blocks-block_alloc fs disk n laws reads fits ne e =
      let taken = block_alloc-Allocated dev laws fs disk (omega arith) ne in
      let less =
        count-remove (free_bit dev disk) (free_bit dev (block_alloc dev fs disk).1)
          (block_alloc dev fs disk).0 0 (32768 * fs.free_bitmap_blocks) taken.now taken.was_free
          (omega arith) (omega (arith, taken.below)) in
      let before = free_blocks-count fs disk (λ i. reads i disk) fits in
      let after =
        free_blocks-count fs (block_alloc dev fs disk).1 (λ i. reads i (block_alloc dev fs disk).1)
          fits in
      ground (arith, less, before, after, e)
