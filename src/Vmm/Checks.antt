-- ===== src/Vmm/Checks.antt =====
-- The checks of what a program hands over in kernel/src/mem/vmm.c: vmm_validate_user_ptr against a check of
-- each byte, and what vmm_copy_user_string reads.
use dz_os.Prelude.{
  ℕ, zero, suc, ◌+◌, ◌-◌, ◌*◌, ◌/◌, ◌%◌, ◌^◌, ◌≤◌, ◌<◌, ◌≡◌, refl, sym, ap, subst, ◌∙◌, inl, inr,
  Bool, true, false, ◌&&◌, ◌||◌, Option, some, arith, ltb, leb, ◌==◌, if◌then◌else◌, u64,
  Bool-cases,
}
use dz_os.Mem.State.{page_size, page_mask, page_round_up}
use dz_os.Vmm.Table.{pte_index, userspace_va_max, userspace_va_min, FrameAllocator, Vm}
use dz_os.Vmm.Walk.{walk, found_pte}
use dz_os.Vmm.User.{allows, validate_from, vmm_validate_user_ptr}
use dz_os.Vmm.Tree.{IsTree}
use dz_os.Vmm.Entries.{words}
use dz_os.Vmm.Path.{path}
use dz_os.Vmm.Look.{pte_of, walk-look}
use dz_os.Vmm.Pages.{UserHalf}

page_index : (a l : ℕ) → pte_index (a - a % 4096) l ≡ pte_index a l
unfolding pte_index
page_index a l =
    let e : (a - a % 4096) / 2 ^ 12 ≡ a / 2 ^ 12 = omega arith in ap (λ x. x / 2 ^ (l * 9) % 512) e

module _ {P : Type 0} (fa : FrameAllocator P) (h root : ℕ) (free : ℕ → Type 0) (v : Vm P)
    (tree : IsTree h root UserHalf free (words v.memory)) (hh : v.hhdm_offset ≡ h) where
  abbrev pub look_up : ℕ → ℕ
  look_up va = pte_of fa h root UserHalf v va

  -- an address is translated by the entry of its page
  pub look_up-page : (a : ℕ) → look_up (a - a % 4096) ≡ look_up a
  unfolding path
  look_up-page a = rw (page_index a 0, page_index a 1, page_index a 2, page_index a 3) refl

  -- all of `n` pages from `va` on
  pages_allow : Bool → ℕ → ℕ → Bool
  pages_allow writable va zero = true
  pages_allow writable va (suc n) =
      allows writable (look_up va) && pages_allow writable (va + page_size) n

  validate_step :
      (writable : Bool) (fuel va end at x : ℕ)
      → walk fa root va false false v ≡ some (at, v)
      → found_pte v at ≡ x
      → ltb va end ≡ true
      → validate_from fa (suc fuel) root va end writable v ≡ (
          if allows writable x
          then validate_from fa fuel root (u64 (va + page_size)) end writable v
          else some false)
  unfolding validate_from
  validate_step writable fuel va end at x w f more =
      rw (more, w) (choose (allows writable (found_pte v at)) (ap (allows writable) f))
    where
      choose :
          (b : Bool) {c : Bool}
          → b ≡ c
          → (elim b as (λ y. Option Bool) [
            | true ↦ validate_from fa fuel root (u64 (va + page_size)) end writable v
            | false ↦ some false
          ])
            ≡ (if c
                then validate_from fa fuel root (u64 (va + page_size)) end writable v
                else some false)
      choose true {c} e = rw (← e) refl
      choose false {c} e = rw (← e) refl

  validate_from-pages :
      (writable : Bool) (fuel n va : ℕ)
      → n < fuel
      → userspace_va_min ≤ va
      → va + n * page_size ≤ userspace_va_max
      → validate_from fa fuel root va (va + n * page_size) writable v
        ≡ some (pages_allow writable va n)
  unfolding validate_from pages_allow pte_index
  validate_from-pages writable zero n va lt low high = absurd (omega arith)
  validate_from-pages writable (suc fuel) zero va lt low high =
      let stop : ltb va (va + 0 * page_size) ≡ false = ground arith in rw stop refl
  validate_from-pages writable (suc fuel) (suc n) va lt low high =
      let more : ltb va (va + suc n * page_size) ≡ true = ground arith in
      let w = walk-look fa h root UserHalf free v tree hh va (omega arith) low (omega arith) in
      let next : u64 (va + page_size) ≡ va + page_size = omega arith in
      let end : va + suc n * page_size ≡ va + page_size + n * page_size = omega arith in
      let rest =
        validate_from-pages writable fuel n (va + page_size) (omega arith) (omega arith)
          (omega arith) in
      validate_step writable fuel va (va + suc n * page_size) w.0 (look_up va) w.1 w.2 more
      ∙ branch (allows writable (look_up va)) (rw (next, end) rest)
    where
      branch :
          (b : Bool) {a : Option Bool} {d : Bool}
          → a ≡ some d
          → (if b then a else some false) ≡ some (b && d)
      branch true e = e
      branch false e = refl

  pages_allow-each :
      (writable : Bool) (n va k : ℕ)
      → pages_allow writable va n ≡ true
      → k < n
      → allows writable (look_up (va + k * page_size)) ≡ true
  unfolding pages_allow
  pages_allow-each writable zero va k all low = absurd (omega arith)
  pages_allow-each writable (suc n) va zero all low =
      let first : va + 0 * page_size ≡ va = omega arith in
      rw first (both (allows writable (look_up va)) all).0
    where
      both : (b : Bool) {c : Bool} → (b && c) ≡ true → (b ≡ true) × (c ≡ true)
      both true e = (refl, e)
      both false e = cc
  pages_allow-each writable (suc n) va (suc k) all low =
      let later : va + suc k * page_size ≡ va + page_size + k * page_size = omega arith in
      rw later (
        pages_allow-each writable n (va + page_size) k (both (allows writable (look_up va)) all).1
          (omega arith))
    where
      both : (b : Bool) {c : Bool} → (b && c) ≡ true → (b ≡ true) × (c ≡ true)
      both true e = (refl, e)
      both false e = cc

  pages_allow-all :
      (writable : Bool) (n va : ℕ)
      → ((k : ℕ) → k < n → allows writable (look_up (va + k * page_size)) ≡ true)
      → pages_allow writable va n ≡ true
  unfolding pages_allow
  pages_allow-all writable zero va each = refl
  pages_allow-all writable (suc n) va each =
      let first : va + 0 * page_size ≡ va = omega arith in
      let here = subst (λ x. allows writable (look_up x) ≡ true) first (each 0 (omega arith)) in
      rw here (
        pages_allow-all writable n (va + page_size) (λ k low.
          let later : va + suc k * page_size ≡ va + page_size + k * page_size = omega arith in
          subst (λ x. allows writable (look_up x) ≡ true) later (each (suc k) (omega arith))))

  -- every byte of the range may be accessed
  abbrev pub BytesAllow : Bool → ℕ → ℕ → Type 0
  BytesAllow writable start len =
      (a : ℕ) → start ≤ a → a < start + len → allows writable (look_up a) ≡ true

  -- Below 4 GiB, `vmm_validate_user_ptr` returns whether every byte of a range that is not empty and begins
  -- in user space lies in a page that is mapped for the user, and is writable where that is asked for.
  pub validate_user_ptr-BytesAllow :
      (start len : ℕ) (writable : Bool)
      → userspace_va_min ≤ start
      → 0 < len
      → start + len + page_size ≤ 2 ^ 32
      → (b : Bool) × (vmm_validate_user_ptr fa root start len writable v ≡ some b)
        × (b ≡ true → BytesAllow writable start len)
        × (BytesAllow writable start len → b ≡ true)
  unfolding vmm_validate_user_ptr
  validate_user_ptr-BytesAllow start len writable low some_len high =
      let first = start - start % page_size in
      let n = (start + len + (page_size - 1)) / page_size - start / page_size in
      let e0 : page_mask start ≡ first = omega arith in
      let end : u64 (start + len) ≡ start + len = omega arith in
      let e1 : page_round_up (start + len) ≡ first + n * page_size = omega arith in
      let run =
        validate_from-pages writable (suc (page_round_up (start + len) / page_size)) n first
          (omega (arith, e1)) (omega arith) (omega arith) in
      let g1 : (start == 0 || len == 0) ≡ false = ground arith in
      let g2 : ltb (start + len) start ≡ false = ground arith in
      let g3 : (leb userspace_va_max start || ltb userspace_va_max (start + len)) ≡ false =
        ground arith in
      let g4 : ltb start userspace_va_min ≡ false = ground arith in
      (
        pages_allow writable first n,
        rw (end, g1, g2, g3, g4, e0)
            (subst
              (λ x.
                validate_from fa (suc (page_round_up (start + len) / page_size)) root first x
                  writable v
                ≡ some (pages_allow writable first n))
              (sym e1) run),
        λ all a la ha.
            let at : first + (a / page_size - start / page_size) * page_size ≡ a - a % page_size =
              omega arith in
            let each =
              pages_allow-each writable n first (a / page_size - start / page_size) all
                (omega arith) in
            subst (λ x. allows writable x ≡ true) (ap look_up at ∙ look_up-page a) each,
        λ bytes. pages_allow-all writable n first (λ k lk.
            let x = first + k * page_size in
            elim (Bool-cases (ltb x start)) [
              | inl before ↦
                  let base : start - start % page_size ≡ x = ground arith in
                  subst (λ y. allows writable y ≡ true) (sym (look_up-page start) ∙ ap look_up base)
                    (bytes start (omega arith) (omega arith))
              | inr after ↦ bytes x (ground arith) (omega arith)
            ]),
      )
