-- ===== src/Fs/Inode.antt =====
-- The inode table of kernel/src/fs/fs.c, over the operations of dzFS (kernel/src/fs/dzfs.h) as an interface.
use dz_os.Prelude.{
  u64, ℕ, zero, suc, ◌+◌, ◌-◌, ◌^◌, ◌⊎◌, inl, inr, Bool, true, false, not, Option, none, some, List,
  ltb, ◌==◌, if◌then◌else◌, u32, ◌>>=◌, update, length,
}
use dz_os.Prelude.Int.{ℤ}

abbrev pub max_inodes : ℕ
max_inodes = 64

-- `DZFS_ENTITY_*`, with every other value as `entity_other`
pub data Entity : Type 0 where
  entity_file entity_folder entity_other : Entity

-- The operations of dzFS that this file calls, on a disk of type `D`; `none` is an error code.
pub record Dzfs (D : Type 0) : Type 1 where
  pub root_dnode : ℕ
  pub open_relative : D → List ℕ → ℕ → ℕ → Option (ℕ × ℕ) × D
  pub stat : D → ℕ → Option (Entity × ℕ)
  pub write : D → ℕ → List ℕ → ℕ → Bool × D
  pub read : D → ℕ → ℕ → ℕ → Option (List ℕ)
  pub delete : D → ℕ → ℕ → Bool × D

pub data InodeType : Type 0 where
  inode_empty inode_file inode_directory : InodeType

pub record Inode : Type 0 where
  pub kind : InodeType
  pub dnode : ℕ
  pub parent_dnode : ℕ
  pub size : ℕ
  pub reference_count : ℕ

abbrev pub is_empty : InodeType → Bool
is_empty InodeType.inode_empty = true
is_empty _ = false

-- The loop over the table, `n` entries from `at`: the inode that holds `dnode` (left), or else the last
-- empty one met.
unfoldable pub scan : (ℕ → Inode) → ℕ → ℕ → ℕ → Option ℕ → ℕ ⊎ Option ℕ
scan inodes dnode at zero free = inr free
scan inodes dnode at (suc n) free =
    let on_empty = scan inodes dnode (suc at) n (some at) in
    let on_other = scan inodes dnode (suc at) n free in
    if is_empty (inodes at).kind
    then on_empty
    else if (inodes at).dnode == dnode
    then inl at
    else on_other

unfoldable pub add_reference : ℕ → (ℕ → Inode) → ℕ → Inode
add_reference i inodes =
    update inodes i (record (inodes i) { reference_count = u32 ((inodes i).reference_count + 1) })

-- an inode for a dnode just opened, with what `dzfs_stat` says of it; `none` is a panic
unfoldable pub fill_inode : ℕ → ℕ → Option (Entity × ℕ) → Option Inode
fill_inode dnode parent none = none
fill_inode dnode parent (some (Entity.entity_file, size)) = some (record {
  kind = InodeType.inode_file;
  dnode = dnode;
  parent_dnode = parent;
  size = size;
  reference_count = 1;
})
fill_inode dnode parent (some (Entity.entity_folder, size)) = some (record {
  kind = InodeType.inode_directory;
  dnode = dnode;
  parent_dnode = parent;
  size = size;
  reference_count = 1;
})
fill_inode dnode parent (some (Entity.entity_other, size)) = none

-- what follows the loop; the result is the inode's index, or `none` for NULL
unfoldable pub settle_inode :
    (ℕ → Inode) → ℕ → ℕ → Option (Entity × ℕ) → ℕ ⊎ Option ℕ → Option (Option ℕ × (ℕ → Inode))
settle_inode inodes dnode parent stat (inl i) = some (some i, add_reference i inodes)
settle_inode inodes dnode parent stat (inr none) = some (none, inodes)
settle_inode inodes dnode parent stat (inr (some i)) =
    fill_inode dnode parent stat >>= λ inode. some (some i, update inodes i inode)

-- `fs_open` from the opened dnode on
unfoldable pub open_inode :
    ℕ → ℕ → Option (Entity × ℕ) → (ℕ → Inode) → Option (Option ℕ × (ℕ → Inode))
open_inode dnode parent stat inodes =
    settle_inode inodes dnode parent stat (scan inodes dnode 0 max_inodes none)

unfoldable pub fs_dup : ℕ → (ℕ → Inode) → ℕ → Inode
fs_dup i inodes = add_reference i inodes

unfoldable pub fs_close : ℕ → (ℕ → Inode) → ℕ → Inode
fs_close i inodes =
    let count = u32 ((inodes i).reference_count + (2 ^ 32 - 1)) in
    update inodes i (
      if count == 0
      then record {
        kind = InodeType.inode_empty;
        dnode = 0;
        parent_dnode = 0;
        size = 0;
        reference_count = 0;
      }
      else record (inodes i) { reference_count = count })

-- `(int)len` for a length that fits
abbrev pub to_int : ℕ → ℤ
to_int n = if ltb (u32 n) (2 ^ 31) then ℤ.pos (u32 n) else ℤ.negsuc (2 ^ 32 - 1 - u32 n)

module _ {D : Type 0} (fs : Dzfs D) where
  -- `relative_to` is an inode's index, or `none` for NULL.
  unfoldable pub fs_open :
      List ℕ → Option ℕ → ℕ → (ℕ → Inode) → D → Option (Option ℕ × (ℕ → Inode) × D)
  fs_open path relative_to flags inodes disk =
      let from : ℕ = elim relative_to [ none ↦ fs.root_dnode | some i ↦ (inodes i).dnode ] in
      let opened = fs.open_relative disk path from flags in
      elim opened.0 [
        | none ↦ some (none, inodes, opened.1)
        | some (dnode, parent) ↦ open_inode dnode parent (fs.stat opened.1 dnode) inodes >>= λ r.
            some (r.0, r.1, opened.1)
      ]

  unfoldable pub fs_write : ℕ → List ℕ → ℕ → (ℕ → Inode) → D → ℤ × (ℕ → Inode) × D
  fs_write i buffer offset inodes disk =
      let inode = inodes i in
      let end = u64 (offset + length buffer) in
      let r = fs.write disk inode.dnode buffer offset in
      if not r.0 then (ℤ.negsuc 0, inodes, r.1) else (
        to_int (length buffer),
        (if ltb inode.size end then update inodes i (record inode { size = u32 end }) else inodes),
        r.1,
      )

  unfoldable pub fs_read : ℕ → ℕ → ℕ → (ℕ → Inode) → D → Option (List ℕ)
  fs_read i len offset inodes disk = fs.read disk (inodes i).dnode len offset

  unfoldable pub fs_delete : List ℕ → ℕ → (ℕ → Inode) → D → ℤ × D
  fs_delete path relative_to inodes disk =
      let opened = fs.open_relative disk path (inodes relative_to).dnode 0 in
      elim opened.0 [
        | none ↦ (ℤ.negsuc 0, opened.1)
        | some (dnode, parent) ↦
            let r = fs.delete opened.1 dnode parent in ((if r.0 then ℤ.pos 0 else ℤ.negsuc 0), r.1)
      ]
