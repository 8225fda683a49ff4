-- ===== src/Vmm/Faults.antt =====
-- Where the checks of kernel/src/mem/vmm.c do something else than they say: pointers beyond 4 GiB, and strings.
use dz_os.Prelude.{
  ◌⊎◌, update, ==-eq, ==-refl, ℕ, zero, suc, ◌+◌, ◌-◌, ◌%◌, ◌^◌, ◌≤◌, ◌<◌, ◌≡◌, refl, sym, ap,
  subst, ◌∙◌, ◌≢◌, inl, inr, Bool, true, false, not, ◌&&◌, ◌||◌, Option, none, some, arith, ltb,
  leb, ◌==◌, if◌then◌else◌, u64, Bool-cases, ==-ne,
}
use dz_os.Mem.State.{page_size, page_mask, page_round_up}
use dz_os.Vmm.Table.{
  pte_addr, pte_is_present, pte_is_user, pte_index, userspace_va_max, userspace_va_min,
  FrameAllocator, Vm, p2v,
}
use dz_os.Vmm.Walk.{walk, found_pte, entry_address, vmm_walkaddr}
use dz_os.Vmm.User.{
  StringCopy, allows, validate_from, vmm_validate_user_ptr, string_page, copy_string, copy_byte,
  vmm_copy_user_string,
}
use dz_os.Vmm.Tree.{IsTree}
use dz_os.Vmm.Entries.{words}
use dz_os.Vmm.Look.{walk-look, walkaddr_lem}
use dz_os.Vmm.Pages.{UserHalf}
use dz_os.Vmm.Checks.{look_up, look_up-page}

filled_next :
    (c copied n : ℕ) (buf : ℕ → ℕ) (k : ℕ)
    → (if leb (suc copied) k && ltb k (suc copied + n)
        then c
        else if k == suc copied + n
        then 0
        else update buf copied c k)
      ≡ (if leb copied k && ltb k (copied + suc n)
          then c
          else if k == copied + suc n
          then 0
          else buf k)
filled_next c copied n buf k = ground arith

-- the start of an address's page
abbrev pub page_start : ℕ → ℕ
page_start a = a - a % page_size

-- The masks of `PAGE_ROUND_DOWN` and `PAGE_ROUND_UP` have 32 bits. So a program that hands over a pointer to
-- user space beyond 4 GiB, whose low half lies with its length below 4 MiB, makes the check of the pointer
-- walk an address below user space: the kernel panics, whatever the page table.
pub validate_user_ptr_panics :
    {P : Type 0} (fa : FrameAllocator P) (root start len : ℕ) (writable : Bool) (v : Vm P)
    → 2 ^ 32 ≤ start
    → start + len ≤ userspace_va_max
    → 0 < len
    → start % 2 ^ 32 + len + page_size ≤ userspace_va_min
    → vmm_validate_user_ptr fa root start len writable v ≡ none
unfolding vmm_validate_user_ptr validate_from walk
validate_user_ptr_panics fa root start len writable v beyond inside some_len low =
    let end : u64 (start + len) ≡ start + len = omega arith in
    let g1 : (start == 0 || len == 0) ≡ false = ground arith in
    let g2 : ltb (start + len) start ≡ false = ground arith in
    let g3 : (leb userspace_va_max start || ltb userspace_va_max (start + len)) ≡ false =
      ground arith in
    let g4 : ltb start userspace_va_min ≡ false = ground arith in
    let more : ltb (page_mask start) (page_round_up (start + len)) ≡ true =
      let lt : page_mask start < page_round_up (start + len) = omega arith in ground arith in
    let below : ltb (page_mask start) userspace_va_min ≡ true = ground arith in
    let out : ((not false && leb userspace_va_max (page_mask start))
          || ltb (page_mask start) userspace_va_min)
        ≡ true =
      ground arith in
    rw (end, g1, g2, g3, g4, more, out) refl

module _ {P : Type 0} (fa : FrameAllocator P) (h root : ℕ) (free : ℕ → Type 0) (v : Vm P)
    (tree : IsTree h root UserHalf free (words v.memory)) (hh : v.hhdm_offset ≡ h) where
  -- the first byte of the frame that an address is mapped to
  abbrev pub first_byte : ℕ → ℕ
  first_byte a = v.memory (p2v v (pte_addr (look_up fa h root free v tree hh a)))

  entry_address-user : (e : ℕ) → allows false e ≡ true → entry_address true e ≡ pte_addr e
  unfolding entry_address allows
  entry_address-user e ok = go (pte_is_present e) (pte_is_user e) ok
    where
      go :
          (p u : Bool)
          → (p && u && true) ≡ true
          → (if not p then 0 else (if (if u then true else false) then pte_addr e else 0))
            ≡ pte_addr e
      go true true h' = refl
      go true false h' = cc
      go false u h' = cc

  page_step :
      (va at y : ℕ)
      → walk fa root (page_mask va) false false v ≡ some (at, v)
      → allows false (found_pte v at) ≡ true
      → vmm_walkaddr fa root va true v ≡ some (y, v)
      → y ≢ 0
      → string_page fa root va v ≡ some (some (p2v v y))
  unfolding string_page
  page_step va at y w ok a ne = rw (w, ok, a, ==-ne y 0 ne) refl

  string_page-frame :
      (base va : ℕ)
      → userspace_va_min ≤ base
      → base % page_size ≡ 0
      → va - va % page_size ≡ base
      → va < 2 ^ 32
      → allows false (look_up fa h root free v tree hh base) ≡ true
      → pte_addr (look_up fa h root free v tree hh base) ≢ 0
      → string_page fa root va v
        ≡ some (some (p2v v (pte_addr (look_up fa h root free v tree hh base))))
  unfolding pte_index
  string_page-frame base va low al page small ok frame =
      let mask : page_mask va ≡ base = omega arith in
      let w = walk-look fa h root UserHalf free v tree hh base (omega arith) low (omega arith) in
      let entry : look_up fa h root free v tree hh va ≡ look_up fa h root free v tree hh base =
        sym (look_up-page fa h root free v tree hh va)
        ∙ ap (look_up fa h root free v tree hh) page in
      let a =
        walkaddr_lem fa h root UserHalf free v tree hh va true (omega arith) (omega arith)
          (omega arith) in
      let e = look_up fa h root free v tree hh base in
      let here = ap (entry_address true) entry ∙ entry_address-user e ok in
      page_step va w.0 (pte_addr e)
        (subst (λ x. walk fa root x false false v ≡ some (w.0, v)) (sym mask) w.1)
        (subst (λ x. allows false x ≡ true) (sym w.2) ok) (a ∙ ap (λ x. some (x, v)) here) frame

  -- the bytes of the buffer behind the copy of `n` bytes `c` from index `copied` on, with the terminator
  abbrev pub Filled : ℕ → ℕ → ℕ → (ℕ → ℕ) → (ℕ → ℕ) → Type 0
  Filled c copied n buf buf' =
      (k : ℕ)
      → buf' k
        ≡ (if leb copied k && ltb k (copied + n) then c else if k == copied + n then 0 else buf k)

  copy_step :
      (user_str copied n q : ℕ) (buf : ℕ → ℕ) (r : Option StringCopy)
      → string_page fa root (u64 (user_str + copied)) v ≡ some (some q)
      → (v.memory q == 0) ≡ false
      → copy_string fa root user_str (suc copied) n (update buf copied (v.memory q)) v ≡ r
      → copy_string fa root user_str copied (suc n) buf v ≡ r
  unfolding copy_string copy_byte
  copy_step user_str copied n q buf r page nz rest = rw (page, nz) rest

  copy_string-frame :
      (base user_str copied n : ℕ) (buf : ℕ → ℕ)
      → userspace_va_min ≤ base
      → base % page_size ≡ 0
      → base ≤ user_str
      → user_str + copied + n ≤ base + page_size
      → user_str + copied + n < 2 ^ 32
      → allows false (look_up fa h root free v tree hh base) ≡ true
      → pte_addr (look_up fa h root free v tree hh base) ≢ 0
      → (first_byte base == 0) ≡ false
      → (buf' : ℕ → ℕ) × (copy_string fa root user_str copied n buf v ≡ some (none, buf'))
        × Filled (first_byte base) copied n buf buf'
  unfolding copy_string copy_byte
  copy_string-frame base user_str copied zero buf low al at fits small ok frame nz =
      (update buf copied 0, refl, λ k. ground arith)
  copy_string-frame base user_str copied (suc n) buf low al at fits small ok frame nz =
      let c = first_byte base in
      let va : u64 (user_str + copied) ≡ user_str + copied = omega arith in
      let page =
        string_page-frame base (user_str + copied) low al (omega arith) (omega arith) ok frame in
      let rest =
        copy_string-frame base user_str (suc copied) n (update buf copied c) low al at (omega arith)
          (omega arith) ok frame nz in
      (
        rest.0,
        copy_step user_str copied n (p2v v (pte_addr (look_up fa h root free v tree hh base))) buf
            (some (none, rest.0))
            (subst
              (λ x.
                string_page fa root x v
                ≡ some (some (p2v v (pte_addr (look_up fa h root free v tree hh base)))))
              (sym va) page)
            nz rest.1,
        λ k. rest.2 k ∙ filled_next c copied n buf k,
      )

  copy_string-empty :
      (base user_str n : ℕ) (buf : ℕ → ℕ)
      → userspace_va_min ≤ base
      → base % page_size ≡ 0
      → base ≤ user_str
      → user_str + n ≤ base + page_size
      → user_str + n < 2 ^ 32
      → 0 < n
      → allows false (look_up fa h root free v tree hh base) ≡ true
      → pte_addr (look_up fa h root free v tree hh base) ≢ 0
      → (first_byte base == 0) ≡ true
      → copy_string fa root user_str 0 n buf v ≡ some (some 0, update buf 0 0)
  unfolding copy_string copy_byte
  copy_string-empty base user_str zero buf low al at fits small pos ok frame z =
      absurd (omega arith)
  copy_string-empty base user_str (suc n) buf low al at fits small pos ok frame z =
      let va : u64 (user_str + 0) ≡ user_str = omega arith in
      let page = string_page-frame base user_str low al (omega arith) (omega arith) ok frame in
      let is = ==-eq (first_byte base) 0 z in
      rw (va, page, z) (ap (λ c. some (some 0, update buf 0 c)) is)

  past_guards :
      (user_str kernel_buf n : ℕ) (buf : ℕ → ℕ)
      → userspace_va_min ≤ user_str
      → user_str < 2 ^ 32
      → kernel_buf ≢ 0
      → vmm_copy_user_string fa root user_str kernel_buf (n + 1) buf v
        ≡ copy_string fa root user_str 0 n buf v
  unfolding vmm_copy_user_string
  past_guards user_str kernel_buf n buf low small given =
      let g : (user_str == 0
            || kernel_buf == 0
            || n + 1 == 0
            || leb userspace_va_max user_str
            || ltb user_str userspace_va_min)
          ≡ false =
        ground arith in
      let len : n + 1 - 1 ≡ n = omega arith in rw (g, len) refl

  -- `vmm_copy_user_string` reads each byte at the start of its frame: it leaves out the offset in the page.
  -- Given a string in one mapped page below 4 GiB, wherever it lies there, it copies the first byte of the
  -- page: when that byte is 0, it returns 0 with the empty string; else it fills the buffer with copies of
  -- it, ends it with the terminator at its last byte and returns -1. The buffer is longer than a byte and not
  -- NULL; the string begins in user space, its page is mapped for the user at a frame other than 0, and as
  -- many bytes as are copied, one less than the buffer has, fit in the page.
  pub copy_user_string-first_byte :
      (user_str kernel_buf n : ℕ) (buf : ℕ → ℕ)
      → userspace_va_min ≤ user_str
      → user_str % page_size + n ≤ page_size
      → user_str + n < 2 ^ 32
      → 0 < n
      → kernel_buf ≢ 0
      → allows false (look_up fa h root free v tree hh (page_start user_str)) ≡ true
      → pte_addr (look_up fa h root free v tree hh (page_start user_str)) ≢ 0
      → let c = first_byte (page_start user_str) in
        let run = vmm_copy_user_string fa root user_str kernel_buf (n + 1) buf v in
        ((c ≡ 0) × (run ≡ some (some 0, update buf 0 0)))
        ⊎ ((c ≢ 0) × (buf' : ℕ → ℕ) × (run ≡ some (none, buf')) × Filled c 0 n buf buf')
  copy_user_string-first_byte user_str kernel_buf n buf low fits small some_len given ok frame =
      let base = page_start user_str in
      let begins = past_guards user_str kernel_buf n buf low (omega arith) given in
      elim (Bool-cases (first_byte base == 0)) [
        | inl z ↦
            let run =
              copy_string-empty base user_str n buf (omega arith) (omega arith) (omega arith)
                (omega arith) (omega arith) some_len ok frame z in
            inl (==-eq (first_byte base) 0 z, begins ∙ run)
        | inr nz ↦
            let run =
              copy_string-frame base user_str 0 n buf (omega arith) (omega arith) (omega arith)
                (omega arith) (omega arith) ok frame nz in
            inr (λ z. cc (nz, z, ==-refl 0), run.0, begins ∙ run.1, run.2)
      ]
