-- ===== src/Heap/Room.antt =====
-- Where an allocation of kernel/src/mem/kmalloc.c lands, and what giving it back does.
use dz_os.Prelude.{ℕ, ◌+◌, ◌/◌, ◌^◌, ◌≤◌, ◌<◌, ◌≡◌, refl, ◌∙◌, ◌⊎◌, inl, inr, arith, u8, u16, u32}
use dz_os.Dzfs.Block.{get_u32, put_u32, get_u32-put_u32_self, get_u32-put_u32_ne, put_u32_ne}
use dz_os.Heap.Mixed.{alloc_hdr_magic, get_u16, put_u16, total_needed, place}

pub put_u16_ne : (m : ℕ → ℕ) (i v j : ℕ) → (j < i) ⊎ (i + 2 ≤ j) → put_u16 m i v j ≡ m j
put_u16_ne m i v j h = ground arith

pub get_u32-ext :
    (m n : ℕ → ℕ) (i : ℕ) → ((k : ℕ) → i ≤ k → k < i + 4 → m k ≡ n k) → get_u32 m i ≡ get_u32 n i
unfolding get_u32
get_u32-ext m n i same =
    rw
      (
        same i (omega arith) (omega arith),
        same (i + 1) (omega arith) (omega arith),
        same (i + 2) (omega arith) (omega arith),
        same (i + 3) (omega arith) (omega arith),
      )
      refl

pub get_u16-ext :
    (m n : ℕ → ℕ) (i : ℕ) → m i ≡ n i → m (i + 1) ≡ n (i + 1) → get_u16 m i ≡ get_u16 n i
get_u16-ext m n i low high = rw (low, high) refl

get_u16-put_u16 : (m : ℕ → ℕ) (i v : ℕ) → v < 2 ^ 16 → get_u16 (put_u16 m i v) i ≡ v
get_u16-put_u16 m i v small =
    let e0 : put_u16 m i v i ≡ u8 v = ground arith in
    let e1 : put_u16 m i v (i + 1) ≡ u8 (v / 2 ^ 8) = ground arith in rw (e0, e1) (omega arith)

-- What `place` writes: the counters of the page, and the header in front of the block.
pub record Placed (page size : ℕ) (m : ℕ → ℕ) (r : ℕ × (ℕ → ℕ)) : Type 0 where
  pub block : r.0 ≡ page + get_u32 m (page + 8) + 4
  pub offset : get_u32 r.1 (page + 8) ≡ get_u32 m (page + 8) + total_needed size
  pub used : get_u32 r.1 (page + 4) ≡ u32 (get_u32 m (page + 4) + total_needed size)
  pub stored_size : get_u16 r.1 (page + get_u32 m (page + 8)) ≡ size
  pub stored_check : get_u16 r.1 (page + get_u32 m (page + 8) + 2) ≡ alloc_hdr_magic
  pub frame :
      (j : ℕ)
      → (j < page + 4) ⊎ (page + 12 ≤ j)
      → (j < page + get_u32 m (page + 8)) ⊎ (page + get_u32 m (page + 8) + 4 ≤ j)
      → (r.1) j ≡ m j

pub place-Placed :
    (page size : ℕ) (m : ℕ → ℕ)
    → 16 ≤ get_u32 m (page + 8)
    → get_u32 m (page + 8) + total_needed size ≤ 4096
    → size ≤ 2048
    → Placed page size m (place page size m)
unfolding place
place-Placed page size m low room small =
    let f = get_u32 m (page + 8) in
    let at = page + f in
    let a = put_u16 m at (u16 size) in
    let m1 = put_u16 a (at + 2) 0xBEEF in
    let out : (j : ℕ) → (j < at) ⊎ (at + 4 ≤ j) → m1 j ≡ m j = λ j h.
      put_u16_ne a (at + 2) 0xBEEF j (omega arith) ∙ put_u16_ne m at (u16 size) j (omega arith) in
    let f1 : get_u32 m1 (page + 8) ≡ f =
      get_u32-ext m1 m (page + 8) (λ k l h. out k (inl (omega arith))) in
    let v = u32 (get_u32 m1 (page + 8) + total_needed size) in
    let m2 = put_u32 m1 (page + 8) v in
    let used2 : get_u32 m2 (page + 4) ≡ get_u32 m (page + 4) =
      get_u32-put_u32_ne m1 (page + 8) v (page + 4) (inl (omega arith))
      ∙ get_u32-ext m1 m (page + 4) (λ k l h. out k (inl (omega arith))) in
    let w = u32 (get_u32 m2 (page + 4) + total_needed size) in
    let far : (j : ℕ) → (j < page + 4) ⊎ (page + 12 ≤ j) → put_u32 m2 (page + 4) w j ≡ m1 j = λ j h.
      put_u32_ne m2 (page + 4) w j (omega arith) ∙ put_u32_ne m1 (page + 8) v j (omega arith) in
    record {
      block = refl;
      offset =
          get_u32-put_u32_ne m2 (page + 4) w (page + 8) (inr (omega arith))
          ∙ get_u32-put_u32_self m1 (page + 8) v (omega arith)
          ∙ omega (arith, f1);
      used = get_u32-put_u32_self m2 (page + 4) w (omega arith) ∙ omega (arith, used2);
      stored_size =
          get_u16-ext (put_u32 m2 (page + 4) w) a at
            (far at (inr (omega arith)) ∙ put_u16_ne a (at + 2) 0xBEEF at (omega arith))
            (far (at + 1) (inr (omega arith)) ∙ put_u16_ne a (at + 2) 0xBEEF (at + 1) (omega arith))
          ∙ get_u16-put_u16 m at (u16 size) (omega arith)
          ∙ omega arith;
      stored_check =
          get_u16-ext (put_u32 m2 (page + 4) w) m1 (at + 2) (far (at + 2) (inr (omega arith)))
            (far (at + 2 + 1) (inr (omega arith)))
          ∙ get_u16-put_u16 a (at + 2) 0xBEEF (omega arith);
      frame = λ j h k. far j h ∙ out j k;
    }
