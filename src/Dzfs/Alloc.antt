-- ===== src/Dzfs/Alloc.antt =====
-- Taking and giving back blocks (`block_alloc` and `block_free` of kernel/src/fs/dzfs.c) against the bits
-- of the free bitmaps.
use dz_os.Prelude.{
  ℕ, zero, suc, ◌+◌, ◌-◌, ◌*◌, ◌/◌, ◌%◌, ◌^◌, ◌≤◌, ◌<◌, ◌≡◌, refl, inl, inr, Bool, true, false, not,
  ◌&&◌, ◌||◌, none, some, arith, leb, ◌==◌, u8, Bool-cases,
}
use dz_os.Prelude.{==-eq}
use Prim.Native.Nat.{bit_and, bit_or}
use dz_os.Dzfs.Block.{Block, get_u8, put_u8}
use dz_os.Dzfs.Bits.{
  test_bit, ctz, set_mask, clear_mask, test_bit-set_mask, test_bit-clear_mask, ctz_lt, test_bit-ctz,
}
use dz_os.Dzfs.Bitmap.{bitmap_set, bitmap_clear, find_byte, dnode_at}

-- bit `j` of a bitmap
abbrev pub bitmap_bit : Block → ℕ → Bool
bitmap_bit b j = test_bit (get_u8 b (j / 8)) (j % 8)

u8-u8 : (x : ℕ) → u8 (u8 x) ≡ u8 x
u8-u8 x = omega arith

get_u8-put_u8_self : (b : Block) (i v : ℕ) → get_u8 (put_u8 b i v) i ≡ u8 v
get_u8-put_u8_self b i v = ground arith

get_u8-put_u8_ne : (b : Block) (i j v : ℕ) → (j == i) ≡ false → get_u8 (put_u8 b i v) j ≡ get_u8 b j
get_u8-put_u8_ne b i j v h = ground arith

same_byte : (i j : ℕ) → (j / 8 == i / 8) ≡ true → (j % 8 == i % 8) ≡ (j == i)
same_byte i j h = ground arith

other_byte : (i j : ℕ) → (j / 8 == i / 8) ≡ false → (j == i) ≡ false
other_byte i j h = ground arith

or_false : (b : Bool) → (b || false) ≡ b
or_false b = ground arith

and_true : (b : Bool) → (b && true) ≡ b
and_true b = ground arith

set_in_byte :
    (b : Block) (i j : ℕ)
    → bitmap_bit (put_u8 b (i / 8) (set_mask (get_u8 b (i / 8)) (i % 8))) j
      ≡ (bitmap_bit b j || (j == i))
set_in_byte b i j = elim (Bool-cases (j / 8 == i / 8)) [
  | inl e ↦
      let at : j / 8 ≡ i / 8 = ==-eq _ _ e in
      rw
        (
          at,
          get_u8-put_u8_self b (i / 8) (set_mask (get_u8 b (i / 8)) (i % 8)),
          u8-u8 (bit_or (get_u8 b (i / 8)) (2 ^ (i % 8))),
          test_bit-set_mask (i % 8) (j % 8) (get_u8 b (i / 8)) (omega arith) (omega arith)
              (omega arith),
          same_byte i j e,
        )
        refl
  | inr e ↦
      rw (get_u8-put_u8_ne b (i / 8) (j / 8) _ e, other_byte i j e, or_false (bitmap_bit b j)) refl
]

clear_in_byte :
    (b : Block) (i j : ℕ)
    → bitmap_bit (put_u8 b (i / 8) (clear_mask (get_u8 b (i / 8)) (i % 8))) j
      ≡ (bitmap_bit b j && not (j == i))
clear_in_byte b i j = elim (Bool-cases (j / 8 == i / 8)) [
  | inl e ↦
      let at : j / 8 ≡ i / 8 = ==-eq _ _ e in
      rw
        (
          at,
          get_u8-put_u8_self b (i / 8) (clear_mask (get_u8 b (i / 8)) (i % 8)),
          u8-u8 (bit_and (get_u8 b (i / 8)) (2 ^ 32 - 1 - 2 ^ (i % 8))),
          test_bit-clear_mask (i % 8) (j % 8) (get_u8 b (i / 8)) (omega arith) (omega arith)
              (omega arith),
          same_byte i j e,
        )
        refl
  | inr e ↦
      rw (get_u8-put_u8_ne b (i / 8) (j / 8) _ e, other_byte i j e, and_true (bitmap_bit b j)) refl
]

-- `bitmap_set` sets the one bit.
pub bit-bitmap_set :
    (b : Block) (i j : ℕ) → i < 32768 → bitmap_bit (bitmap_set b i) j ≡ (bitmap_bit b j || (j == i))
unfolding bitmap_set
bit-bitmap_set b i j hi =
    let inside : leb 4096 (i / 8) ≡ false = ground arith in rw inside (set_in_byte b i j)

pub bit-bitmap_clear :
    (b : Block) (i j : ℕ)
    → i < 32768
    → bitmap_bit (bitmap_clear b i) j ≡ (bitmap_bit b j && not (j == i))
unfolding bitmap_clear
bit-bitmap_clear b i j hi =
    let inside : leb 4096 (i / 8) ≡ false = ground arith in rw inside (clear_in_byte b i j)

-- The first byte that is not 0.
pub find_byte-some :
    (b : Block) (i n k : ℕ)
    → find_byte b i n ≡ some k
    → (i ≤ k) × (k < i + n) × ((get_u8 b k == 0) ≡ false)
unfolding find_byte
find_byte-some b i zero k h = ground arith
find_byte-some b i (suc n) k h = grind (arith, find_byte-some b (suc i) n k)

pub find_byte-none :
    (b : Block) (i n k : ℕ) → find_byte b i n ≡ none → i ≤ k → k < i + n → (get_u8 b k == 0) ≡ true
unfolding find_byte
find_byte-none b i zero k h low high = absurd (omega arith)
find_byte-none b i (suc n) k h low high = grind (arith, find_byte-none b (suc i) n k)

-- what `dnode_at` computes is the number of a block whose bit is set
pub dnode_at-bit :
    (a : ℕ) (b : Block) (k dnode : ℕ)
    → k < 4096
    → (get_u8 b k == 0) ≡ false
    → (a + 1) * 32768 ≤ 2 ^ 32
    → dnode_at a b (some k) ≡ dnode
    → (dnode / 32768 ≡ a) × (bitmap_bit b (dnode % 32768) ≡ true)
unfolding dnode_at
dnode_at-bit a b k dnode hk ne fits e =
    let c = ctz 32 (get_u8 b k) in
    let small : c < 8 = ctz_lt (get_u8 b k) (omega arith) ne in
    let value : dnode ≡ a * 32768 + (k * 8 + c) = omega arith in
    let at : dnode % 32768 / 8 ≡ k = omega arith in
    let low : dnode % 32768 % 8 ≡ c = omega arith in
    (omega arith, rw (at, low) (test_bit-ctz (get_u8 b k) (omega arith) ne))
