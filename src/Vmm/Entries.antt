-- ===== src/Vmm/Entries.antt =====
-- The entries of page tables in memory: reads and writes of 64-bit words on frames, and what the calls of
-- kernel/src/mem/mem.c give.
use dz_os.Prelude.{
  ℕ, ◌+◌, ◌-◌, ◌*◌, ◌/◌, ◌%◌, ◌^◌, ◌≤◌, ◌<◌, ◌≡◌, refl, sym, ap, subst, ◌∙◌, ◌≢◌, ◌⊎◌, inl, inr,
  true, some, arith, ◌==◌, u32, u64, Bool-cases, ==-refl,
}
use dz_os.Dzfs.Block.{get_u32, put_u32, get_u32-put_u32_self, get_u32-put_u32_ne, put_u32_ne}
use dz_os.Heap.Free.{get_u64, put_u64}
use dz_os.Vmm.Table.{pte_addr, pte_is_present, FrameAllocator}
use dz_os.Vmm.Tree.{IsFrame, child}

-- entry `j` of the table `t`
abbrev pub words : (ℕ → ℕ) → ℕ → ℕ → ℕ
words m t j = get_u64 m (t + 8 * j)

get_u64-put_u64_self : (m : ℕ → ℕ) (i v : ℕ) → v < 2 ^ 64 → get_u64 (put_u64 m i v) i ≡ v
get_u64-put_u64_self m i v h =
    let low = put_u32 m i (u32 v) in
    let a : get_u32 (put_u64 m i v) i ≡ u32 v =
      get_u32-put_u32_ne low (i + 4) (u32 (v / 2 ^ 32)) i (inl (omega arith))
      ∙ get_u32-put_u32_self m i (u32 v) (omega arith) in
    let b : get_u32 (put_u64 m i v) (i + 4) ≡ u32 (v / 2 ^ 32) =
      get_u32-put_u32_self low (i + 4) (u32 (v / 2 ^ 32)) (omega arith) in
    omega (arith, a, b)

-- memory that agrees on the eight bytes
pub get_u64-ext :
    (m m' : ℕ → ℕ) (i : ℕ) → ((x : ℕ) → i ≤ x → x < i + 8 → m' x ≡ m x) → get_u64 m' i ≡ get_u64 m i
unfolding get_u32
get_u64-ext m m' i same =
    rw
      (
        same i (omega arith) (omega arith),
        same (i + 1) (omega arith) (omega arith),
        same (i + 2) (omega arith) (omega arith),
        same (i + 3) (omega arith) (omega arith),
        same (i + 4) (omega arith) (omega arith),
        same (i + 4 + 1) (omega arith) (omega arith),
        same (i + 4 + 2) (omega arith) (omega arith),
        same (i + 4 + 3) (omega arith) (omega arith),
      )
      refl

pub put_u64_ne : (m : ℕ → ℕ) (i v x : ℕ) → (x < i) ⊎ (i + 8 ≤ x) → put_u64 m i v x ≡ m x
put_u64_ne m i v x (inl h) =
    put_u32_ne (put_u32 m i (u32 v)) (i + 4) (u32 (v / 2 ^ 32)) x (inl (omega arith))
    ∙ put_u32_ne m i (u32 v) x (inl h)
put_u64_ne m i v x (inr h) =
    put_u32_ne (put_u32 m i (u32 v)) (i + 4) (u32 (v / 2 ^ 32)) x (inr (omega arith))
    ∙ put_u32_ne m i (u32 v) x (inr (omega arith))

get_u64-put_u64_ne :
    (m : ℕ → ℕ) (i v j : ℕ) → (j + 8 ≤ i) ⊎ (i + 8 ≤ j) → get_u64 (put_u64 m i v) j ≡ get_u64 m j
get_u64-put_u64_ne m i v j (inl h) =
    get_u64-ext m (put_u64 m i v) j (λ x low high. put_u64_ne m i v x (inl (omega arith)))
get_u64-put_u64_ne m i v j (inr h) =
    get_u64-ext m (put_u64 m i v) j (λ x low high. put_u64_ne m i v x (inr (omega arith)))

module _ {h : ℕ} where
  -- two frames do not overlap
  slots :
      {t a : ℕ} (i j : ℕ)
      → IsFrame h t
      → IsFrame h a
      → i < 512
      → j < 512
      → (t ≢ a) ⊎ (j ≢ i)
      → (t + 8 * j + 8 ≤ a + 8 * i) ⊎ (a + 8 * i + 8 ≤ t + 8 * j)
  slots {t} {a} i j ft fa hi hj ne = ground arith

  pub words-put_u64_ne :
      (m : ℕ → ℕ) (e : ℕ) {t a : ℕ} (i j : ℕ)
      → IsFrame h t
      → IsFrame h a
      → i < 512
      → j < 512
      → (t ≢ a) ⊎ (j ≢ i)
      → words (put_u64 m (a + 8 * i) e) t j ≡ words m t j
  words-put_u64_ne m e {t} {a} i j ft fa hi hj ne =
      get_u64-put_u64_ne m (a + 8 * i) e (t + 8 * j) (slots i j ft fa hi hj ne)

pub words-put_u64_self :
    (m : ℕ → ℕ) (e t j : ℕ) → e < 2 ^ 64 → words (put_u64 m (t + 8 * j) e) t j ≡ e
words-put_u64_self m e t j h = get_u64-put_u64_self m (t + 8 * j) e h

-- A change of one page, which may be page 0 for none, leaves the entries of the frames alone.
pub words-outside :
    {h : ℕ} (m m' : ℕ → ℕ) (n t j : ℕ)
    → ((x : ℕ) → (x < n) ⊎ (n + 4096 ≤ x) → m' x ≡ m x)
    → n % 4096 ≡ 0
    → IsFrame h t
    → t ≢ n
    → j < 512
    → words m' t j ≡ words m t j
words-outside m m' n t j same an ft ne hj =
    get_u64-ext m m' (t + 8 * j) (λ x low high. same x (ground arith))

pub words-zero :
    (m : ℕ → ℕ) (n j : ℕ) → ((x : ℕ) → n ≤ x → x < n + 4096 → m x ≡ 0) → j < 512 → words m n j ≡ 0
unfolding get_u32
words-zero m n j zero_page hj =
    let z : get_u64 (λ x. 0) (n + 8 * j) ≡ 0 = refl in
    get_u64-ext (λ x. 0) m (n + 8 * j) (λ x low high. zero_page x (omega arith) (omega arith)) ∙ z

-- What an allocation gives, on memory `m` and in the state `s`: a free frame or 0, with no other page
-- changed, the page no longer free, and the allocator in order again.
pub record Gives {P : Type 0} (h : ℕ) (Ok : (ℕ → ℕ) → P → Type 0) (Free : P → ℕ → Type 0)
    (m : ℕ → ℕ) (s : P) (r : ℕ × (ℕ → ℕ) × P) : Type 0 where
  pub page : r.0 ≢ 0 → IsFrame h r.0 × Free s r.0
  pub outside : (x : ℕ) → (x < r.0) ⊎ (r.0 + 4096 ≤ x) → r.1 x ≡ m x
  pub fewer : (t : ℕ) → Free r.2 t → Free s t × (t ≢ r.0)
  pub ok : Ok r.1 r.2

-- What vmm.c relies on, for the pages `Free` of an allocator that is in order, `Ok`, on a memory. It stays so
-- when a page that is not free is written to. `Vmm.Supply` proves this of the allocator of mem.c.
pub record IsFrameAllocator {P : Type 0} (fa : FrameAllocator P) (h : ℕ) (Ok : (ℕ → ℕ) → P → Type 0)
    (Free : P → ℕ → Type 0) : Type 0 where
  pub kalloc_gives : (m : ℕ → ℕ) (s : P) → Ok m s → Gives h Ok Free m s (fa.kalloc m s)
  pub elsewhere :
      (m m' : ℕ → ℕ) (s : P) (t : ℕ)
      → Ok m s
      → IsFrame h t
      → (Free s t → ⊥)
      → ((x : ℕ) → (x < t) ⊎ (t + 4096 ≤ x) → m' x ≡ m x)
      → Ok m' s
  pub hhdm_aligned : h % 4096 ≡ 0

-- an entry with flags in the low twelve bits, the first of them set
pub flagged_present : (flags x : ℕ) → flags % 2 ≡ 1 → pte_is_present (flags + pte_addr x) ≡ true
unfolding pte_is_present pte_addr
flagged_present flags x odd = ground arith

pub flagged_addr : (flags x : ℕ) → flags < 4096 → pte_addr (flags + pte_addr x) ≡ pte_addr x
unfolding pte_addr
flagged_addr flags x small = omega arith

-- the frame that the entry of a page leads back to
pub addr-frame :
    (h t : ℕ) → h % 4096 ≡ 0 → IsFrame h t → u64 (pte_addr (u64 (t + 2 ^ 64 - h)) + h) ≡ t
unfolding pte_addr
addr-frame h t ah f = omega arith

pub child-link :
    (h t flags : ℕ)
    → h % 4096 ≡ 0
    → IsFrame h t
    → flags < 4096
    → flags % 2 ≡ 1
    → child h (flags + pte_addr (u64 (t + 2 ^ 64 - h))) ≡ some t
unfolding child
child-link h t flags ah f small odd =
    rw
      (
        flagged_present flags (u64 (t + 2 ^ 64 - h)) odd,
        flagged_addr flags (u64 (t + 2 ^ 64 - h)) small,
      )
      (ap some (addr-frame h t ah f))

pub pte_addr-bound : (e : ℕ) → pte_addr e < 2 ^ 52
unfolding pte_addr
pte_addr-bound e = omega arith

-- the page given is aligned, NULL too, and is no frame in use
pub Gives-aligned :
    {P : Type 0} {h : ℕ} {Ok : (ℕ → ℕ) → P → Type 0} {Free : P → ℕ → Type 0} {m : ℕ → ℕ} {s : P}
    {r : ℕ × (ℕ → ℕ) × P}
    → Gives h Ok Free m s r
    → r.0 % 4096 ≡ 0
Gives-aligned {r} g = elim (Bool-cases (r.0 == 0)) [
  | inl null ↦ ground arith
  | inr ne ↦ (g.page (λ eq. cc (ne, eq, ==-refl 0))).0.aligned
]

pub Gives-ne :
    {P : Type 0} {h : ℕ} {Ok : (ℕ → ℕ) → P → Type 0} {Free : P → ℕ → Type 0} {m : ℕ → ℕ} {s : P}
    {r : ℕ × (ℕ → ℕ) × P}
    → Gives h Ok Free m s r
    → (t : ℕ) → IsFrame h t
    → (Free s t → ⊥)
    → t ≢ r.0
Gives-ne {Free} {s} {r} g t f used eq = elim (Bool-cases (r.0 == 0)) [
  | inl null ↦ absurd (ground arith)
  | inr ne ↦ used (subst (Free s) (sym eq) (g.page (λ z. cc (ne, z, ==-refl 0))).1)
]
