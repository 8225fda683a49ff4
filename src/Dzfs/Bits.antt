-- ===== src/Dzfs/Bits.antt =====
-- The bits of a byte: setting, clearing, the lowest one and their number, for the bitmaps of
-- kernel/src/fs/dzfs.c.
use dz_os.Prelude.{
  ℕ, zero, suc, ◌+◌, ◌-◌, ◌/◌, ◌%◌, ◌^◌, ◌<◌, ◌≡◌, refl, sym, ap, Bool, true, false, not, ◌&&◌,
  ◌||◌, Option, none, some, arith, ltb, ◌==◌, if◌then◌else◌, u8, u32,
}
use dz_os.Prelude.{==-eq, Bool-cases, inl, inr}
use Prim.Native.Nat.{bit_and, bit_or}

-- bit `k` of a word
abbrev pub test_bit : ℕ → ℕ → Bool
test_bit x k = x / 2 ^ k % 2 == 1

-- `__builtin_ctz` of a number that is not 0: the trailing zeros of a word of `n` bits
unfoldable pub ctz : ℕ → ℕ → ℕ
ctz zero x = 0
ctz (suc n) x = let rest = suc (ctz n (x / 2)) in if x % 2 == 1 then 0 else rest

-- the number of 1 bits among the first `n`
unfoldable pub ones : ℕ → ℕ → ℕ
ones zero x = 0
ones (suc n) x = x % 2 + ones n (x / 2)

-- a test tried on every number under a limit
unfoldable pub checked : ℕ → (ℕ → Bool) → Bool
checked zero test = true
checked (suc limit) test = if test limit then checked limit test else false

pub checked_at :
    (limit : ℕ) (test : ℕ → Bool) (value : ℕ)
    → checked limit test ≡ true
    → value < limit
    → test value ≡ true
unfolding checked
checked_at zero test value passed under = absurd (omega arith)
checked_at (suc limit) test value passed under = elim (Bool-cases (value == limit)) [
  | inl last ↦ ground (arith, passed, ap test (==-eq value limit last))
  | inr other ↦
      let under_limit : value < limit = ground arith in
      ground (arith, passed, checked_at limit test value)
]

same : Bool → Bool → Bool
same true b = b
same false b = not b

same-eq : (a b : Bool) → same a b ≡ true → a ≡ b
unfolding same
same-eq true true h = refl
same-eq true false h = ground arith
same-eq false true h = ground arith
same-eq false false h = refl

-- `c` of the source's `&= ~(1 << k)` and `|= 1 << k` on a byte
abbrev pub set_mask : ℕ → ℕ → ℕ
set_mask x k = u8 (bit_or x (2 ^ k))

abbrev pub clear_mask : ℕ → ℕ → ℕ
clear_mask x k = u8 (bit_and x (2 ^ 32 - 1 - 2 ^ k))

-- two bits below 8 and a byte
table : (ℕ → ℕ → ℕ → Bool) → Bool
table p = checked 8 (λ k. checked 8 (λ m. checked 256 (p k m)))

table_sound :
    (p : ℕ → ℕ → ℕ → Bool) → table p ≡ true → (k m x : ℕ) → k < 8 → m < 8 → x < 256 → p k m x ≡ true
unfolding table
table_sound p h k m x hk hm hx =
    let at_k = checked_at 8 _ k h hk in
    let at_m = checked_at 8 (λ m. checked 256 (p k m)) m at_k hm in checked_at 256 (p k m) x at_m hx

set_table : table (λ k m x. same (test_bit (set_mask x k) m) (test_bit x m || (m == k))) ≡ true
unfolding table checked same
set_table = refl

clear_table :
    table (λ k m x. same (test_bit (clear_mask x k) m) (test_bit x m && not (m == k))) ≡ true
unfolding table checked same
clear_table = refl

pub test_bit-set_mask :
    (k m x : ℕ) → k < 8 → m < 8 → x < 256 → test_bit (set_mask x k) m ≡ (test_bit x m || (m == k))
test_bit-set_mask k m x hk hm hx = same-eq _ _ (table_sound _ set_table k m x hk hm hx)

pub test_bit-clear_mask :
    (k m x : ℕ)
    → k < 8
    → m < 8
    → x < 256
    → test_bit (clear_mask x k) m ≡ (test_bit x m && not (m == k))
test_bit-clear_mask k m x hk hm hx = same-eq _ _ (table_sound _ clear_table k m x hk hm hx)

-- The lowest bit of a byte that is not 0 is one of its bits.
ctz_table : checked 256 (λ x. (x == 0) || (ltb (ctz 32 x) 8 && test_bit x (ctz 32 x))) ≡ true
unfolding checked ctz
ctz_table = refl

pub ctz_lt : (x : ℕ) → x < 256 → (x == 0) ≡ false → ctz 32 x < 8
ctz_lt x h ne = ground (arith, checked_at 256 _ x ctz_table h)

pub test_bit-ctz : (x : ℕ) → x < 256 → (x == 0) ≡ false → test_bit x (ctz 32 x) ≡ true
test_bit-ctz x h ne = ground (arith, checked_at 256 _ x ctz_table h)

-- a byte with a bit is not 0
some_bit_table : table (λ k m x. not (test_bit x k) || not (x == 0)) ≡ true
unfolding table checked
some_bit_table = refl

pub test_bit-ne : (x k : ℕ) → x < 256 → k < 8 → test_bit x k ≡ true → (x == 0) ≡ false
test_bit-ne x k hx hk h = ground (arith, table_sound _ some_bit_table k 0 x hk (omega arith) hx)

ones-table : table (λ k m x. not (test_bit x k) || (ones 8 (clear_mask x k) + 1 == ones 8 x)) ≡ true
unfolding table checked ones
ones-table = refl

pub ones-clear_mask :
    (x k : ℕ) → x < 256 → k < 8 → test_bit x k ≡ true → ones 8 (clear_mask x k) + 1 ≡ ones 8 x
ones-clear_mask x k hx hk h = ground (arith, table_sound _ ones-table k 0 x hk (omega arith) hx)

set_ones-table : table (λ k m x. test_bit x k || (ones 8 (set_mask x k) == ones 8 x + 1)) ≡ true
unfolding table checked ones
set_ones-table = refl

pub ones-set_mask :
    (x k : ℕ) → x < 256 → k < 8 → test_bit x k ≡ false → ones 8 (set_mask x k) ≡ ones 8 x + 1
ones-set_mask x k hx hk h = ground (arith, table_sound _ set_ones-table k 0 x hk (omega arith) hx)

-- the loop `for (; a; ++c) a &= a - 1;` of `popcount`, on fuel; `none` is fuel run out
unfoldable pub popcount_from : ℕ → ℕ → ℕ → Option ℕ
popcount_from zero a c = none
popcount_from (suc n) a c =
    let rest = popcount_from n (bit_and a (a - 1)) (u32 (c + 1)) in if a == 0 then some c else rest

-- 33 rounds are enough for a word of 32 bits
unfoldable pub popcount : ℕ → Option ℕ
popcount a = popcount_from 33 a 0

is_count : ℕ → Option ℕ → Bool
is_count n none = false
is_count n (some m) = n == m

popcount_table : checked 256 (λ x. is_count (ones 8 x) (popcount x)) ≡ true
unfolding checked popcount popcount_from is_count ones
popcount_table = refl

is_count-eq : (n : ℕ) (r : Option ℕ) → is_count n r ≡ true → r ≡ some n
unfolding is_count
is_count-eq n none h = ground arith
is_count-eq n (some m) h = ap some (sym (==-eq n m h))

-- `popcount` returns on every byte, and counts its bits.
pub popcount-ones : (x : ℕ) → x < 256 → popcount x ≡ some (ones 8 x)
popcount-ones x h = is_count-eq _ _ (checked_at 256 _ x popcount_table h)
