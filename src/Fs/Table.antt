-- ===== src/Fs/Table.antt =====
-- The inode table of kernel/src/fs/fs.c: one inode for a dnode, counted.
use dz_os.Prelude.{
  ℕ, ◌+◌, ◌-◌, ◌%◌, ◌^◌, ◌<◌, ◌≡◌, refl, sym, ap, ◌∙◌, ◌⊎◌, inl, inr, true, false, Option, none,
  some, arith, ◌==◌, u32, Bool-cases, ==-refl, ◌>>=◌, update,
}
use dz_os.Prelude.{==-eq}
use dz_os.Fs.Inode.{
  Inode, Entity, max_inodes, is_empty, scan, add_reference, fill_inode, settle_inode, open_inode,
  fs_close, fs_dup,
}
use dz_os.Fs.Search.{Misses, Scanned, scan-Scanned}

-- An inode in use has references, and no two of them stand for one dnode.
pub record IsTable (inodes : ℕ → Inode) : Type 0 where
  pub counted :
      (i : ℕ) → i < max_inodes → is_empty (inodes i).kind ≡ false → 0 < (inodes i).reference_count
  pub one_each :
      (i j : ℕ)
      → i < max_inodes
      → j < max_inodes
      → is_empty (inodes i).kind ≡ false
      → is_empty (inodes j).kind ≡ false
      → (inodes i).dnode ≡ (inodes j).dnode
      → i ≡ j

-- What the opening of an inode has to give: an inode of the dnode in a table in order, or NULL with the
-- table as it was, when no inode of the dnode is in use and none is empty.
abbrev pub Opens : (ℕ → Inode) → ℕ → Option (Option ℕ × (ℕ → Inode)) → Type 0
Opens inodes dnode none = ⊥
Opens inodes dnode (some (none, after)) =
    (after ≡ inodes)
    × ((j : ℕ) → j < max_inodes → (is_empty (inodes j).kind ≡ false) × Misses inodes dnode j)
Opens inodes dnode (some (some i, after)) =
    (i < max_inodes) × (is_empty (after i).kind ≡ false) × ((after i).dnode ≡ dnode) × IsTable after

-- the fields that the order of the table reads, `a` after `b`
record SameUse (a b : Inode) : Type 0 where
  pub kind : is_empty a.kind ≡ is_empty b.kind
  pub dnode : a.dnode ≡ b.dnode
  pub count : 0 < b.reference_count → 0 < a.reference_count

IsTable-keeps :
    (a b : ℕ → Inode) → ((i : ℕ) → i < max_inodes → SameUse (a i) (b i)) → IsTable b → IsTable a
IsTable-keeps a b k v = record {
  counted = λ i h used. (k i h).count (v.counted i h (sym (k i h).kind ∙ used));
  one_each = λ i j h h' u u' e.
      v.one_each i j h h' (sym (k i h).kind ∙ u) (sym (k j h').kind ∙ u')
        (sym (k i h).dnode ∙ e ∙ (k j h').dnode);
}

add_reference-SameUse :
    (inodes : ℕ → Inode) (i j : ℕ)
    → (inodes i).reference_count < 2 ^ 32 - 1
    → SameUse (add_reference i inodes j) (inodes j)
unfolding add_reference
add_reference-SameUse inodes i j small = elim (Bool-cases (j == i)) [
  | inl eq ↦
      let same : inodes i ≡ inodes j = ap inodes (sym (==-eq j i eq)) in
      simp eq record {
        kind = ap (λ e. is_empty e.kind) same;
        dnode = ap (λ e. e.dnode) same;
        count = λ h. omega (arith, small);
      }
  | inr ne ↦ simp ne record { kind = refl; dnode = refl; count = λ h. h }
]

Misses-not :
    (inodes : ℕ → Inode) (dnode k : ℕ)
    → Misses inodes dnode k
    → is_empty (inodes k).kind ≡ false
    → (inodes k).dnode ≡ dnode
    → ⊥
Misses-not inodes dnode k (inl e) used same = cc
Misses-not inodes dnode k (inr ne) used same = ne same

-- an empty entry filled with a dnode that no other has
fill-IsTable :
    (inodes : ℕ → Inode) (dnode i : ℕ) (e : Inode)
    → IsTable inodes
    → e.dnode ≡ dnode
    → e.reference_count ≡ 1
    → ((j : ℕ) → j < max_inodes → Misses inodes dnode j)
    → IsTable (update inodes i e)
fill-IsTable inodes dnode i e v d c miss = record {
  counted = λ j h used. elim (Bool-cases (j == i)) [
    | inl eq ↦ simp eq (omega (arith, c))
    | inr ne ↦ simp ne (v.counted j h (simp ne at used))
  ];
  one_each = λ j k hj hk uj uk same. elim (Bool-cases (j == i)) [
    | inl ji ↦ elim (Bool-cases (k == i)) [
      | inl ki ↦ ==-eq j i ji ∙ sym (==-eq k i ki)
      | inr ki ↦
          absurd (
            Misses-not inodes dnode k (miss k hk) (simp ki at uk) (sym (simp (ji, ki) at same) ∙ d))
    ]
    | inr ji ↦ elim (Bool-cases (k == i)) [
      | inl ki ↦
          absurd (Misses-not inodes dnode j (miss j hj) (simp ji at uj) (simp (ji, ki) at same ∙ d))
      | inr ki ↦ v.one_each j k hj hk (simp ji at uj) (simp ki at uk) (simp (ji, ki) at same)
    ]
  ];
}

-- a file or a folder, as `dzfs_stat` must find the dnode that was opened
abbrev pub IsStat : Option (Entity × ℕ) → Type 0
IsStat (some (Entity.entity_file, size)) = Unit {0}
IsStat (some (Entity.entity_folder, size)) = Unit {0}
IsStat _ = ⊥

abbrev Filled : ℕ → Option Inode → Type 0
Filled dnode none = ⊥
Filled dnode (some e) = (is_empty e.kind ≡ false) × (e.dnode ≡ dnode) × (e.reference_count ≡ 1)

fill_inode-Filled :
    (dnode parent : ℕ) (stat : Option (Entity × ℕ))
    → IsStat stat
    → Filled dnode (fill_inode dnode parent stat)
unfolding fill_inode
fill_inode-Filled dnode parent none h = absurd h
fill_inode-Filled dnode parent (some (Entity.entity_file, size)) h = (refl, refl, refl)
fill_inode-Filled dnode parent (some (Entity.entity_folder, size)) h = (refl, refl, refl)
fill_inode-Filled dnode parent (some (Entity.entity_other, size)) h = absurd h

fill-Opens :
    (inodes : ℕ → Inode) (dnode i : ℕ) (e : Option Inode)
    → IsTable inodes
    → i < max_inodes
    → Filled dnode e
    → ((j : ℕ) → j < max_inodes → Misses inodes dnode j)
    → Opens inodes dnode (e >>= λ inode. some (some i, update inodes i inode))
fill-Opens inodes dnode i none v h f miss = f
fill-Opens inodes dnode i (some e) v h (used, d, c) miss =
    (h, rw (==-refl i) used, rw (==-refl i) d, fill-IsTable inodes dnode i e v d c miss)

settle-Opens :
    (inodes : ℕ → Inode) (dnode parent : ℕ) (stat : Option (Entity × ℕ)) (r : ℕ ⊎ Option ℕ)
    → IsTable inodes
    → ((i : ℕ) → (inodes i).reference_count < 2 ^ 32 - 1)
    → IsStat stat
    → Scanned inodes dnode 0 max_inodes none r
    → Opens inodes dnode (settle_inode inodes dnode parent stat r)
unfolding settle_inode
settle-Opens inodes dnode parent stat (inl i) v small ok (h, used, same) =
    let u = add_reference-SameUse inodes i i (small i) in
    (
      omega (arith, h),
      u.kind ∙ used,
      u.dnode ∙ same,
      IsTable-keeps (add_reference i inodes) inodes
          (λ j hj. add_reference-SameUse inodes i j (small i)) v,
    )
settle-Opens inodes dnode parent stat (inr none) v small ok (misses, (free, full)) = (
  refl,
  λ j h. (full j (omega arith) (omega (arith, h)), misses j (omega arith) (omega (arith, h))),
)
settle-Opens inodes dnode parent stat (inr (some i)) v small ok (misses, inl e) = cc
settle-Opens inodes dnode parent stat (inr (some i)) v small ok (misses, inr (h, empty)) =
    fill-Opens inodes dnode i (fill_inode dnode parent stat) v (omega (arith, h))
      (fill_inode-Filled dnode parent stat ok) (λ j hj. misses j (omega arith) (omega (arith, hj)))

-- Opening a dnode, once dzFS has found it, gives an inode of that dnode and keeps the table in order, so
-- that no other inode stands for it; it gives NULL, with the table as it was, only if the dnode has no
-- inode and all 64 are in use. No reference count stands at its last value.
pub open_inode-Opens :
    (inodes : ℕ → Inode) (dnode parent : ℕ) (stat : Option (Entity × ℕ))
    → IsTable inodes
    → ((i : ℕ) → (inodes i).reference_count < 2 ^ 32 - 1)
    → IsStat stat
    → Opens inodes dnode (open_inode dnode parent stat inodes)
unfolding open_inode
open_inode-Opens inodes dnode parent stat v small ok =
    settle-Opens inodes dnode parent stat (scan inodes dnode 0 max_inodes none) v small ok
      (scan-Scanned inodes dnode 0 max_inodes none)

-- an entry that is left empty, or used as before
abbrev Kept : Inode → Inode → Type 0
Kept a b = (is_empty a.kind ≡ true) ⊎ SameUse a b

Kept-used : (a b : Inode) → Kept a b → is_empty a.kind ≡ false → SameUse a b
Kept-used a b (inl e) used = cc
Kept-used a b (inr k) used = k

IsTable-Kept : (a b : ℕ → Inode) → ((i : ℕ) → Kept (a i) (b i)) → IsTable b → IsTable a
IsTable-Kept a b k v = record {
  counted = λ i h used.
      let s = Kept-used (a i) (b i) (k i) used in s.count (v.counted i h (sym s.kind ∙ used));
  one_each = λ i j h h' u u' e.
      let s = Kept-used (a i) (b i) (k i) u in
      let s' = Kept-used (a j) (b j) (k j) u' in
      v.one_each i j h h' (sym s.kind ∙ u) (sym s'.kind ∙ u') (sym s.dnode ∙ e ∙ s'.dnode);
}

close-Kept :
    (inodes : ℕ → Inode) (i j : ℕ)
    → 0 < (inodes i).reference_count
    → (inodes i).reference_count < 2 ^ 32
    → Kept (fs_close i inodes j) (inodes j)
unfolding fs_close
close-Kept inodes i j pos small = elim (Bool-cases (j == i)) [
  | inr ne ↦ simp ne (inr (record { kind = refl; dnode = refl; count = λ h. h }))
  | inl eq ↦
      let same : inodes i ≡ inodes j = ap inodes (sym (==-eq j i eq)) in
      elim (Bool-cases (u32 ((inodes i).reference_count + (2 ^ 32 - 1)) == 0)) [
        | inl last ↦ simp (eq, last) (inl refl)
        | inr more ↦
            simp (eq, more)
              (inr (record {
                kind = ap (λ e. is_empty e.kind) same;
                dnode = ap (λ e. e.dnode) same;
                count = λ h. ground arith;
              }))
      ]
]

-- Closing an inode in use keeps the table in order.
pub close-IsTable :
    (inodes : ℕ → Inode) (i : ℕ)
    → IsTable inodes
    → 0 < (inodes i).reference_count
    → (inodes i).reference_count < 2 ^ 32
    → IsTable (fs_close i inodes)
close-IsTable inodes i v pos small =
    IsTable-Kept (fs_close i inodes) inodes (λ j. close-Kept inodes i j pos small) v

-- Closing an inode right after it was duplicated leaves it as it was, if its count had room.
pub close-dup :
    (inodes : ℕ → Inode) (i : ℕ)
    → 0 < (inodes i).reference_count
    → (inodes i).reference_count < 2 ^ 32 - 1
    → fs_close i (fs_dup i inodes) i ≡ inodes i
unfolding fs_close fs_dup add_reference
close-dup inodes i pos small =
    let c = (inodes i).reference_count in
    let back : ((c + 1) % 4294967296 + 4294967295) % 4294967296 ≡ c = omega arith in
    let more : (c == 0) ≡ false = ground arith in rw (==-refl i, back, more) refl
