-- ===== src/Dzfs/Reread.antt =====
-- Reading back what was written (`dzfs_write` and `dzfs_read` of kernel/src/fs/dzfs.c).
use dz_os.Prelude.{
  ℕ, suc, ◌+◌, ◌-◌, ◌*◌, ◌/◌, ◌%◌, ◌^◌, ◌≤◌, ◌<◌, ◌≡◌, refl, sym, ap, subst, ◌∙◌, ◌≢◌, ◌⊎◌, inl,
  inr, true, false, some, List, [], ◌∷◌, arith, leb, ◌==◌, u32, Bool-cases, length, take, drop, All,
}
use dz_os.Prelude.{drop, take, All}
use dz_os.Dzfs.Block.{
  Block, BlockDevice, IsBlockDevice, DzfsState, DzfsError, get_u8, put_u8, get_u32, put_u32,
  get_u32-put_u32_self, get_u32-put_u32_ne, put_u32_ne, file_size, indirect_block,
}
use dz_os.Dzfs.Bitmap.{block_alloc}
use dz_os.Dzfs.Free.{free_bit}
use dz_os.Dzfs.Taken.{block_alloc-Allocated}
use dz_os.Dzfs.Io.{
  Result, Io, is_ok, guard-ok, if_false, if_true, continue_with-ok, written-ok, value_or,
}
use dz_os.Dzfs.Open.{put_bytes}
use dz_os.Dzfs.File.{
  min, Buffers, get_bytes, direct_at, get_or_allocate_block, content_block, write_content,
  write_round, write_blocks, write_back,
}

abbrev pub IsByte : ℕ → Type 0
IsByte c = c < 256

put_bytes-below :
    (b : Block) (i : ℕ) (xs : List ℕ) (j : ℕ) → j < i → get_u8 (put_bytes b i xs) j ≡ get_u8 b j
unfolding put_bytes
put_bytes-below b i [] j out = refl
put_bytes-below b i (x ∷ xs) j out =
    let ne : (j == i) ≡ false = ground arith in
    ground (arith, put_bytes-below (put_u8 b i x) (suc i) xs j (omega arith), ne)

pub get_bytes-put_bytes :
    (b : Block) (i : ℕ) (xs : List ℕ)
    → All IsByte xs
    → get_bytes (put_bytes b i xs) i (length xs) ≡ xs
unfolding get_bytes put_bytes
get_bytes-put_bytes b i [] h = refl
get_bytes-put_bytes b i (x ∷ xs) h =
    let first : get_u8 (put_bytes (put_u8 b i x) (suc i) xs) i ≡ x =
      ground (arith, put_bytes-below (put_u8 b i x) (suc i) xs i (omega arith), h.0) in
    rw (first, get_bytes-put_bytes (put_u8 b i x) (suc i) xs h.1) refl

take-length : (xs : List ℕ) → take (length xs) xs ≡ xs
take-length [] = refl
take-length (c ∷ xs) = ap (λ t. c ∷ t) (take-length xs)

drop-length : (xs : List ℕ) → drop (length xs) xs ≡ []
drop-length [] = refl
drop-length (c ∷ xs) = drop-length xs

module _ {D : Type 0} (dev : BlockDevice D) (laws : IsBlockDevice dev) (fs : DzfsState) where
  -- the number got: stored where it was asked for, and an old one or that of a block that was free
  pub record Got (from : Block) (at : ℕ) (disk : D) (r : ℕ × Block) : Type 0 where
    pub nonzero : r.0 ≢ 0
    pub stored : get_u32 r.1 at ≡ r.0
    pub fields : (j : ℕ) → j + 4 ≤ at → get_u32 r.1 j ≡ get_u32 from j
    pub bytes : (j : ℕ) → j < at → r.1 j ≡ from j
    pub origin : (r.0 ≡ get_u32 from at) ⊎ (free_bit dev disk r.0 ≡ true)

  get_or_allocate-Got :
      (from : Block) (at : ℕ) (disk after : D) (r : ℕ × Block)
      → fs.free_bitmap_blocks * 32768 ≤ 2 ^ 32
      → get_or_allocate_block dev fs from at disk ≡ (Result.ok r, after)
      → Got from at disk r
  unfolding get_or_allocate_block
  get_or_allocate-Got from at disk after r fits e = elim (Bool-cases (get_u32 from at == 0)) [
    | inl none_yet ↦
        let alloc = block_alloc dev fs disk in
        let g =
          guard-ok (alloc.0 == 0) DzfsError.err_full alloc.1 _ r after
            (if_true (get_u32 from at == 0) _ _ _ none_yet e) in
        let nz : alloc.0 ≢ 0 = ground (arith, g.0) in
        let taken = block_alloc-Allocated dev laws fs disk fits nz in
        let is = ap (λ (p : Result (ℕ × Block) × D). value_or {A = ℕ × Block} (0, from) p.0) g.1 in
        let small : alloc.0 < 2 ^ 32 = omega (arith, taken.below) in
        subst (Got from at disk) is (record {
          nonzero = nz;
          stored = get_u32-put_u32_self from at alloc.0 small;
          fields = λ j h. get_u32-put_u32_ne from at alloc.0 j (inl h);
          bytes = λ j h. put_u32_ne from at alloc.0 j (inl h);
          origin = inr taken.was_free;
        })
    | inr there ↦
        let same = if_false (get_u32 from at == 0) _ _ _ there e in
        let is = ap (λ (p : Result (ℕ × Block) × D). value_or {A = ℕ × Block} (0, from) p.0) same in
        subst (Got from at disk) is (record {
          nonzero = λ z. absurd (ground (arith, there, z));
          stored = refl;
          fields = λ j h. refl;
          bytes = λ j h. refl;
          origin = inl refl;
        })
  ]

  write_content-ok :
      (content at : ℕ) (buffers after_buffers : Buffers) (b : Result Block) (bytes : List ℕ)
      (disk after : D)
      → write_content dev content buffers b at bytes disk ≡ (Result.ok after_buffers, after)
      → (old : Block) × (dev.read_block content after ≡ some (put_bytes old at bytes))
        × (after_buffers.file ≡ buffers.file)
        × (after_buffers.indirect ≡ buffers.indirect)
        × ((j : ℕ) → content ≢ j → dev.read_block j after ≡ dev.read_block j disk)
  unfolding write_content
  write_content-ok content at buffers ab (Result.failed e) bytes disk after h =
      let bad : false ≡ true = ap (λ p. is_ok p.0) h in absurd (ground (arith, bad))
  write_content-ok content at buffers ab (Result.ok b) bytes disk after h =
      let filled = put_bytes b at bytes in
      let w = dev.write_block content filled disk in
      let t =
        written-ok w.0 (record buffers { content = filled }) DzfsError.err_io w.1 ab after h in
      (
        b,
        ap (dev.read_block content) (sym t.2) ∙ laws.read-write_self content filled disk t.0,
        ap (λ (r : Buffers). r.file) (sym t.1),
        ap (λ (r : Buffers). r.indirect) (sym t.1),
        λ j ne. ap (dev.read_block j) (sym t.2) ∙ laws.read-write_ne content j filled disk ne,
      )

  pub write_back-ok :
      (dnode size : ℕ) (buffers : Buffers) (disk after : D)
      → indirect_block buffers.file ≡ 0
      → write_back dev dnode size buffers disk ≡ (Result.ok tt, after)
      → (dev.read_block dnode after
          ≡ some (put_u32 buffers.file 264 (u32 (file_size buffers.file + size))))
        × ((j : ℕ) → dnode ≢ j → dev.read_block j after ≡ dev.read_block j disk)
  unfolding write_back
  write_back-ok dnode size buffers disk after no_indirect e =
      let grown = put_u32 buffers.file 264 (u32 (file_size buffers.file + size)) in
      let v = dev.write_block dnode grown disk in
      let t = written-ok v.0 tt DzfsError.err_io v.1 tt after (rw no_indirect at e) in
      (
        ap (dev.read_block dnode) (sym t.2) ∙ laws.read-write_self dnode grown disk t.0,
        λ j ne. ap (dev.read_block j) (sym t.2) ∙ laws.read-write_ne dnode j grown disk ne,
      )

  content_block-direct :
      (buffers : Buffers) (index : ℕ) (disk after : D) (r : ℕ × Buffers)
      → fs.free_bitmap_blocks * 32768 ≤ 2 ^ 32
      → index < 956
      → content_block dev fs buffers index disk ≡ (Result.ok r, after)
      → Got buffers.file (direct_at index) disk (r.0, (r.1).file)
  unfolding content_block
  content_block-direct buffers index disk after r fits low e =
      let direct : leb 956 index ≡ false = ground arith in
      let s =
        continue_with-ok (get_or_allocate_block dev fs buffers.file (direct_at index) disk) _ r
          after (if_false (leb 956 index) _ _ _ direct e) in
      let got = get_or_allocate-Got buffers.file (direct_at index) disk s.1 s.0 fits s.2 in
      let is =
        ap (λ (p : Result (ℕ × Buffers) × D). value_or {A = ℕ × Buffers} (0, buffers) p.0) s.3 in
      subst (λ (q : ℕ × Buffers). Got buffers.file (direct_at index) disk (q.0, (q.1).file)) is got

  write_round-ok :
      (buffers out : Buffers) (bytes : List ℕ) (offset : ℕ) (next : Buffers → Io D Buffers)
      (disk after : D)
      → fs.free_bitmap_blocks * 32768 ≤ 2 ^ 32
      → offset / 4096 < 956
      → write_round dev fs buffers bytes offset next disk ≡ (Result.ok out, after)
      → (c : ℕ) × (old : Block) × (mid : Buffers) × (d : D) × Got buffers.file
          (direct_at (offset / 4096))
          disk
          (c, mid.file)
        × (dev.read_block c d ≡ some (put_bytes old (offset % 4096) bytes))
        × (next mid d ≡ (Result.ok out, after))
  unfolding write_round
  write_round-ok buffers out bytes offset next disk after fits low e =
      let s = continue_with-ok (content_block dev fs buffers (offset / 4096) disk) _ out after e in
      let t = continue_with-ok _ next out after s.3 in
      let got = content_block-direct buffers (offset / 4096) disk s.1 s.0 fits low s.2 in
      let wrote = write_content-ok (s.0).0 (offset % 4096) (s.0).1 t.0 _ bytes s.1 t.1 t.2 in
      (
        (s.0).0,
        wrote.0,
        t.0,
        t.1,
        subst (λ (b : Block). Got buffers.file (direct_at (offset / 4096)) disk ((s.0).0, b))
            (sym wrote.2) got,
        wrote.1,
        t.3,
      )

  -- A write that stays in one block is one round of the loop.
  pub one_round :
      (buffers out : Buffers) (bytes : List ℕ) (offset : ℕ) (disk after : D)
      → fs.free_bitmap_blocks * 32768 ≤ 2 ^ 32
      → 0 < length bytes
      → offset % 4096 + length bytes ≤ 4096
      → offset / 4096 < 956
      → write_blocks dev (length bytes) fs buffers bytes offset disk ≡ (Result.ok out, after)
      → (c : ℕ) × (old : Block) × Got buffers.file (direct_at (offset / 4096)) disk (c, out.file)
        × (dev.read_block c after ≡ some (put_bytes old (offset % 4096) bytes))
  unfolding write_blocks
  one_round buffers out [] offset disk after fits some_byte inside low e = absurd (omega arith)
  one_round buffers out (x ∷ xs) offset disk after fits some_byte inside low e =
      let to_copy = min (4096 - offset % 4096) (length (x ∷ xs)) in
      let whole : to_copy ≡ length (x ∷ xs) = ground arith in
      let empty = ap (λ k. drop k (x ∷ xs)) whole ∙ drop-length (x ∷ xs) in
      let all = ap (λ k. take k (x ∷ xs)) whole ∙ take-length (x ∷ xs) in
      let next : Buffers → Io D Buffers =
        λ b d. write_blocks dev (length xs) fs b (drop to_copy (x ∷ xs)) (offset + to_copy) d in
      let w =
        write_round-ok buffers out (take to_copy (x ∷ xs)) offset next disk after fits low e in
      let end : ◌≡◌ {A = Result Buffers × D} (Result.ok w.2, w.3) (Result.ok out, after) =
        sym (ap (λ k. write_blocks dev (length xs) fs w.2 k (offset + to_copy) w.3) empty) ∙ w.6 in
      let is : w.2 ≡ out = ap (λ (p : Result Buffers × D). value_or {A = Buffers} out p.0) end in
      let at : w.3 ≡ after = ap (λ (p : Result Buffers × D). p.1) end in
      (
        w.0,
        w.1,
        subst (λ (b : Buffers). Got buffers.file (direct_at (offset / 4096)) disk (w.0, b.file)) is
            w.4,
        ap (dev.read_block w.0) (sym at)
            ∙ w.5
            ∙ ap (λ xs. some (put_bytes w.1 (offset % 4096) xs)) all,
      )
