-- ===== src/Dzfs/Loops.antt =====
-- The fuel of the loops of `dzfs_write` and `dzfs_read` (kernel/src/fs/dzfs.c) suffices.
use dz_os.Prelude.{
  ℕ, zero, suc, ◌+◌, ◌-◌, ◌%◌, ◌≤◌, ◌≡◌, refl, ap, fun_ext, inl, inr, true, List, [], ◌∷◌, arith,
  ◌==◌, Bool-cases, length, take, drop,
}
use dz_os.Prelude.{drop, take}
use dz_os.Dzfs.Block.{Block, BlockDevice, DzfsState}
use dz_os.Dzfs.Traverse.{length-drop}
use dz_os.Dzfs.File.{min, Buffers, write_round, write_blocks, read_blocks}

module _ {D : Type 0} (dev : BlockDevice D) (fs : DzfsState) where
  -- The writing loop returns the same on every amount of fuel from the number of bytes on.
  pub write_blocks-fuel :
      (m n : ℕ) (buffers : Buffers) (bytes : List ℕ) (offset : ℕ) (disk : D)
      → length bytes ≤ m
      → length bytes ≤ n
      → write_blocks dev m fs buffers bytes offset disk
        ≡ write_blocks dev n fs buffers bytes offset disk
  unfolding write_blocks
  write_blocks-fuel m n buffers [] offset disk fm fn = refl
  write_blocks-fuel zero n buffers (x ∷ bytes) offset disk fm fn = absurd (omega arith)
  write_blocks-fuel (suc m) zero buffers (x ∷ bytes) offset disk fm fn = absurd (omega arith)
  write_blocks-fuel (suc m) (suc n) buffers (x ∷ bytes) offset disk fm fn =
      let to_copy = min (4096 - offset % 4096) (length (x ∷ bytes)) in
      let left = length-drop to_copy (x ∷ bytes) in
      let progress : 1 ≤ to_copy = ground arith in
      let same = λ (b : Buffers) (d : D).
        write_blocks-fuel m n b (drop to_copy (x ∷ bytes)) (offset + to_copy) d
          (omega (arith, left, progress)) (omega (arith, left, progress)) in
      ap (λ next. write_round dev fs buffers (take to_copy (x ∷ bytes)) offset next disk)
        (fun_ext (λ b. fun_ext (λ d. same b d)))

  -- The reading loop returns the same on every amount of fuel from the number of bytes asked for on.
  pub read_blocks-fuel :
      (m n : ℕ) (file indirect : Block) (to_read offset : ℕ) (disk : D)
      → to_read ≤ m
      → to_read ≤ n
      → read_blocks dev m file indirect to_read offset disk
        ≡ read_blocks dev n file indirect to_read offset disk
  unfolding read_blocks
  read_blocks-fuel zero zero file indirect to_read offset disk fm fn = refl
  read_blocks-fuel zero (suc n) file indirect to_read offset disk fm fn =
      let none_left : (to_read == 0) ≡ true = ground arith in rw none_left refl
  read_blocks-fuel (suc m) zero file indirect to_read offset disk fm fn =
      let none_left : (to_read == 0) ≡ true = ground arith in rw none_left refl
  read_blocks-fuel (suc m) (suc n) file indirect to_read offset disk fm fn =
      let to_copy = min (4096 - offset % 4096) to_read in
      elim (Bool-cases (to_read == 0)) [
        | inl e ↦ rw e refl
        | inr e ↦
            let progress : 1 ≤ to_copy = ground arith in
            rw
              (
                e,
                read_blocks-fuel m n file indirect (to_read - to_copy) (offset + to_copy) disk
                    (omega (arith, progress)) (omega (arith, progress)),
              )
              refl
      ]
