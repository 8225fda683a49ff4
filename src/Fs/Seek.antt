-- ===== src/Fs/Seek.antt =====
-- `file_seek` of kernel/src/fs/file.c and the allocation of descriptors.
use dz_os.Prelude.{
  ℕ, zero, suc, ◌+◌, ◌≤◌, ◌<◌, ◌≡◌, refl, sym, subst, inl, inr, true, false, Option, none, some,
  arith, ◌==◌, Bool-cases,
}
use dz_os.Prelude.Int.{ℤ}
use dz_os.Prelude.{==-eq}
use dz_os.Fs.File.{
  ProcessFile, Process, is_free, free_fd, proc_allocate_fd, max_open_files, seek_target, seek_to,
  seek_file,
}

seek_to_bounds :
    (size : ℕ) (file : ProcessFile) (r : Option ℕ)
    → file.offset ≤ size
    → let file' = (seek_to size file r).1 in
      (file'.offset ≤ size)
      × (file'.kind ≡ file.kind)
      × (file'.readable ≡ file.readable)
      × (file'.writable ≡ file.writable)
unfolding seek_to
seek_to_bounds size file none h = (h, refl, refl, refl)
seek_to_bounds size file (some t) h = (ground arith, refl, refl, refl)

-- A seek never leaves the offset beyond the end of the file, whatever its arguments, when it was not beyond
-- before; and it changes nothing else of the open file.
pub seek_bounds :
    (size : ℕ) (file : ProcessFile) (offset : ℤ) (whence : ℕ)
    → file.offset ≤ size
    → let file' = (seek_file size file offset whence).1 in
      (file'.offset ≤ size)
      × (file'.kind ≡ file.kind)
      × (file'.readable ≡ file.readable)
      × (file'.writable ≡ file.writable)
unfolding seek_file
seek_bounds size file offset whence h =
    seek_to_bounds size file (seek_target size file.offset offset whence) h

-- What an allocation has to give: the first empty entry, or -1 when all are taken.
abbrev pub Allocates : (ℕ → ProcessFile) → ℕ → ℕ → Option ℕ → Type 0
Allocates files at n none = (j : ℕ) → at ≤ j → j < at + n → is_free (files j).kind ≡ false
Allocates files at n (some fd) =
    (fd < at + n)
    × (is_free (files fd).kind ≡ true)
    × ((j : ℕ) → at ≤ j → j < fd → is_free (files j).kind ≡ false)

Allocates-later :
    (files : ℕ → ProcessFile) (at n : ℕ) (r : Option ℕ)
    → is_free (files at).kind ≡ false
    → Allocates files (suc at) n r
    → Allocates files at (suc n) r
Allocates-later files at n none used h = λ j low high. elim (Bool-cases (j == at)) [
  | inl eq ↦ subst (λ k. is_free (files k).kind ≡ false) (sym (==-eq j at eq)) used
  | inr ne ↦ h j (ground arith) (omega arith)
]
Allocates-later files at n (some fd) used (lt, free, before) = (
  omega arith,
  free,
  λ j low high. elim (Bool-cases (j == at)) [
    | inl eq ↦ subst (λ k. is_free (files k).kind ≡ false) (sym (==-eq j at eq)) used
    | inr ne ↦ before j (ground arith) high
  ],
)

free_fd-Allocates : (files : ℕ → ProcessFile) (at n : ℕ) → Allocates files at n (free_fd files at n)
unfolding free_fd
free_fd-Allocates files at zero = λ j low high. absurd (omega arith)
free_fd-Allocates files at (suc n) = elim (Bool-cases (is_free (files at).kind)) [
  | inl free ↦ rw free (omega arith, free, λ j low high. absurd (omega arith))
  | inr used ↦ rw used (
      Allocates-later files at n (free_fd files (suc at) n) used
        (free_fd-Allocates files (suc at) n))
]

-- A descriptor that is allocated is the lowest free one, and -1 comes only when all eight are taken.
pub allocate_fd-Allocates :
    (p : Process) → Allocates p.open_files 0 max_open_files (proc_allocate_fd p)
unfolding proc_allocate_fd
allocate_fd-Allocates p = free_fd-Allocates p.open_files 0 max_open_files
