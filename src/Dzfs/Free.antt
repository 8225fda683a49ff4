-- ===== src/Dzfs/Free.antt =====
-- The blocks that the free bitmaps of a disk call free, and what the search of `block_alloc`
-- (kernel/src/fs/dzfs.c) finds.
use dz_os.Prelude.{
  ℕ, zero, suc, ◌+◌, ◌*◌, ◌/◌, ◌%◌, ◌^◌, ◌≤◌, ◌<◌, ◌≡◌, refl, sym, ◌∙◌, ◌≢◌, ◌⊎◌, inl, inr, Bool,
  true, false, not, ◌&&◌, Option, none, some, arith, leb, ◌==◌, if◌then◌else◌, Bool-cases,
}
use dz_os.Prelude.{is_some}
use dz_os.Dzfs.Block.{Block, BlockDevice, DzfsState, get_u8}
use dz_os.Dzfs.Bits.{test_bit-ne}
use dz_os.Dzfs.Bitmap.{bitmap_of, find_byte, dnode_at, search_bitmap, find_free}
use dz_os.Dzfs.Alloc.{bitmap_bit, find_byte-some, find_byte-none, dnode_at-bit}

unfoldable pub bit_in : Option Block → ℕ → Bool
bit_in none j = false
bit_in (some b) j = bitmap_bit b (j % 32768)

find_byte-zero :
    (b : Block) (j : ℕ) → find_byte b 0 4096 ≡ none → j < 32768 → bitmap_bit b j ≡ false
find_byte-zero b j is h =
    let at = find_byte-none b 0 4096 (j / 8) is (omega arith) (omega arith) in
    elim (Bool-cases (bitmap_bit b j)) [
      | inl e ↦
          ground (arith, at, test_bit-ne (get_u8 b (j / 8)) (j % 8) (omega arith) (omega arith) e)
      | inr e ↦ e
    ]

-- What a search of one bitmap finds: what the rest finds, or a block whose bit is set here.
search_bitmap_cases :
    (a rest dnode : ℕ) (r : Option Block)
    → search_bitmap a rest r ≡ dnode
    → dnode ≢ 0
    → (a + 1) * 32768 ≤ 2 ^ 32
    → (rest ≡ dnode) ⊎ ((dnode / 32768 ≡ a) × (bit_in r dnode ≡ true))
unfolding search_bitmap dnode_at bit_in
search_bitmap_cases a rest dnode none e ne fits = absurd (ne (sym e))
search_bitmap_cases a rest dnode (some b) e ne fits = found (find_byte b 0 4096) refl e
  where
    found :
        (k : Option ℕ)
        → find_byte b 0 4096 ≡ k
        → (if dnode_at a b k == 0 then rest else dnode_at a b k) ≡ dnode
        → (rest ≡ dnode) ⊎ ((dnode / 32768 ≡ a) × (bit_in (some b) dnode ≡ true))
    found none is e = inl e
    found (some k) is e =
        let at = find_byte-some b 0 4096 k is in
        elim (Bool-cases (dnode_at a b (some k) == 0)) [
          | inl z ↦ inl (ground arith)
          | inr z ↦ inr (dnode_at-bit a b k dnode at.1 at.2 fits (ground arith))
        ]

-- A search of a bitmap that finds nothing finds nothing further on either, and the bitmap is all zero but
-- for the bit of block 0.
search_bitmap-none :
    (a rest : ℕ) (b : Block)
    → search_bitmap a rest (some b) ≡ 0
    → (a + 1) * 32768 ≤ 2 ^ 32
    → ((a ≡ 0) → bitmap_bit b 0 ≡ false)
    → (rest ≡ 0) × ((j : ℕ) → j < 32768 → bitmap_bit b j ≡ false)
unfolding search_bitmap dnode_at
search_bitmap-none a rest b e fits clear0 = found (find_byte b 0 4096) refl e
  where
    found :
        (k : Option ℕ)
        → find_byte b 0 4096 ≡ k
        → (if dnode_at a b k == 0 then rest else dnode_at a b k) ≡ 0
        → (rest ≡ 0) × ((j : ℕ) → j < 32768 → bitmap_bit b j ≡ false)
    found none is e = (e, λ j. find_byte-zero b j is)
    found (some k) is e =
        let at = find_byte-some b 0 4096 k is in
        let here = dnode_at-bit a b k 0 at.1 at.2 fits (ground (arith, e)) in
        absurd (ground (arith, here.1, clear0 (omega (arith, here.0))))

module _ {D : Type 0} (dev : BlockDevice D) where
  -- whether the disk's bitmaps call block `j` free
  unfoldable pub free_bit : D → ℕ → Bool
  free_bit disk j = bit_in (dev.read_block (bitmap_of j) disk) j

  pub find_free-free :
      (a n dnode : ℕ) (disk : D)
      → find_free dev a n disk ≡ dnode
      → dnode ≢ 0
      → (a + n) * 32768 ≤ 2 ^ 32
      → (free_bit disk dnode ≡ true) × (dnode < (a + n) * 32768)
  unfolding find_free free_bit bit_in
  find_free-free a zero dnode disk e ne fits = absurd (ne (sym e))
  find_free-free a (suc n) dnode disk e ne fits =
      let cases =
        search_bitmap_cases a (find_free dev (suc a) n disk) dnode (dev.read_block (a + 1 + 1) disk)
          e ne (omega arith) in
      elim cases [
        | inl rest ↦
            let ih = find_free-free (suc a) n dnode disk rest ne (omega arith) in
            (ih.0, omega (arith, ih.1))
        | inr here ↦
            let at : bitmap_of dnode ≡ a + 1 + 1 = omega (arith, here.0) in
            (rw at here.1, omega (arith, here.0))
      ]

  free_bit-read :
      (a j : ℕ) (b : Block) (disk : D)
      → dev.read_block (a + 1 + 1) disk ≡ some b
      → j / 32768 ≡ a
      → free_bit disk j ≡ bitmap_bit b (j % 32768)
  unfolding free_bit bit_in
  free_bit-read a j b disk is at = let e : bitmap_of j ≡ a + 1 + 1 = omega arith in rw (e, is) refl

  pub find_free-none :
      (a n : ℕ) (disk : D)
      → find_free dev a n disk ≡ 0
      → ((i : ℕ) → is_some (dev.read_block i disk) ≡ true)
      → free_bit disk 0 ≡ false
      → (a + n) * 32768 ≤ 2 ^ 32
      → (j : ℕ) → a * 32768 ≤ j
      → j < (a + n) * 32768
      → free_bit disk j ≡ false
  unfolding find_free
  find_free-none a zero disk e reads clear0 fits j low high = absurd (omega arith)
  find_free-none a (suc n) disk e reads clear0 fits j low high =
      rest (dev.read_block (a + 1 + 1) disk) refl (reads (a + 1 + 1)) e (λ empty more.
        find_free-none (suc a) n disk empty reads clear0 (omega arith) j more (omega arith))
    where
      rest :
          (r : Option Block)
          → dev.read_block (a + 1 + 1) disk ≡ r
          → is_some r ≡ true
          → search_bitmap a (find_free dev (suc a) n disk) r ≡ 0
          → (find_free dev (suc a) n disk ≡ 0 → suc a * 32768 ≤ j → free_bit disk j ≡ false)
          → free_bit disk j ≡ false
      rest none is ok e ih = ground arith
      rest (some b) is ok e ih =
          let got =
            search_bitmap-none a (find_free dev (suc a) n disk) b e (omega arith)
              (λ z. sym (free_bit-read a 0 b disk is (omega (arith, z))) ∙ clear0) in
          elim (Bool-cases (leb ((a + 1) * 32768) j)) [
            | inl more ↦ ih got.0 (ground arith)
            | inr here ↦
                free_bit-read a j b disk is (ground arith) ∙ got.1 (j % 32768) (omega arith)
          ]

  -- What a successful `block_alloc` does: the block was free and stands below the bitmaps' end, its bit
  -- alone is cleared, and no block but the one with that bit is written.
  pub record Allocated (fs : DzfsState) (disk : D) (dnode : ℕ) (after : D) : Type 0 where
    pub was_free : free_bit disk dnode ≡ true
    pub below : dnode < fs.free_bitmap_blocks * 32768
    pub now : (j : ℕ) → free_bit after j ≡ (free_bit disk j && not (j == dnode))
    pub frame : (i : ℕ) → i ≢ bitmap_of dnode → dev.read_block i after ≡ dev.read_block i disk
