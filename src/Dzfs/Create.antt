-- ===== src/Dzfs/Create.antt =====
-- Creating an entry and opening it again (`dzfs_open_relative` of kernel/src/fs/dzfs.c).
use dz_os.Prelude.{
  ℕ, zero, suc, ◌+◌, ◌*◌, ◌^◌, ◌≤◌, ◌<◌, ◌≡◌, refl, sym, ap, ◌∙◌, ◌≢◌, inl, inr, Bool, true, false,
  not, Option, none, some, List, arith, ◌==◌, if◌then◌else◌, Bool-cases, ==-ne,
}
use dz_os.Prelude.{==-ne, ==-eq}
use dz_os.Dzfs.Block.{
  Block, BlockDevice, IsBlockDevice, DzfsState, DzfsError, content_dnodes, set_content_dnodes,
}
use dz_os.Dzfs.Io.{Result, is_ok, guard-ok, if_false, written-ok}
use dz_os.Dzfs.Bitmap.{block_alloc}
use dz_os.Dzfs.Free.{free_bit}
use dz_os.Dzfs.Taken.{block_alloc-Allocated}
use dz_os.Dzfs.Folder.{name_is, folder_content_count}
use dz_os.Dzfs.Contents.{HasContents, content_count-contents, content_dnodes-set}
use dz_os.Dzfs.Name.{IsName, name_is-new_dnode}
use dz_os.Dzfs.Open.{match_entry, new_dnode, write_entry, create_entry, search_folder}

ok_in : Result ℕ → ℕ
ok_in (Result.failed e) = 0
ok_in (Result.ok n) = n

-- the entry compared does not match, and the search goes on without an error
match_entry-miss :
    (part : List ℕ) (dnode : ℕ) (rest : Result ℕ) (r : Option Block)
    → match_entry part dnode rest r ≡ Result.ok 0
    → dnode ≢ 0
    → (b : Block) × (r ≡ some b) × (name_is b 0 part ≡ false) × (rest ≡ Result.ok 0)
unfolding match_entry ok_in
match_entry-miss part dnode rest none e ne =
    let bad : false ≡ true = ap is_ok e in absurd (ground (arith, bad))
match_entry-miss part dnode rest (some b) e ne = hit (name_is b 0 part) refl e
  where
    hit :
        (c : Bool)
        → name_is b 0 part ≡ c
        → (if c then Result.ok dnode else rest) ≡ Result.ok 0
        → (b' : Block) × (some b ≡ some b') × (name_is b' 0 part ≡ false) × (rest ≡ Result.ok 0)
    hit true is e = absurd (ne (ap ok_in e))
    hit false is e = (b, refl, is, e)

module _ {D : Type 0} (dev : BlockDevice D) where
  -- An entry added behind the others is found by a search that the others do not end.
  search_folder-added :
      (folder added : Block) (part : List ℕ) (n dnode i m : ℕ) (disk after : D) (entry : Block)
      → search_folder dev folder part i m disk ≡ Result.ok 0
      → i ≤ n
      → n < i + m
      → ((k : ℕ) → k < n → content_dnodes folder k ≢ 0)
      → ((k : ℕ) → k < n → content_dnodes added k ≡ content_dnodes folder k)
      → ((k : ℕ)
          → k < n
          → dev.read_block (content_dnodes folder k) after
            ≡ dev.read_block (content_dnodes folder k) disk)
      → content_dnodes added n ≡ dnode
      → dnode ≢ 0
      → dev.read_block dnode after ≡ some entry
      → name_is entry 0 part ≡ true
      → search_folder dev added part i m after ≡ Result.ok dnode
  unfolding search_folder match_entry
  search_folder-added folder added part n dnode i zero disk after entry e low high used same kept
        new nz is hit =
      absurd (omega arith)
  search_folder-added folder added part n dnode i (suc m) disk after entry e low high used same kept
        new nz is hit =
      elim (Bool-cases (i == n)) [
        | inl at ↦
            let here : content_dnodes added i ≡ dnode =
              ap (content_dnodes added) (==-eq i n at) ∙ new in
            rw (here, ==-ne dnode 0 nz, is, hit) refl
        | inr before ↦
            let below : i < n = ground arith in
            let full = ==-ne (content_dnodes folder i) 0 (used i below) in
            let missed =
              match_entry-miss part (content_dnodes folder i)
                (search_folder dev folder part (suc i) m disk)
                (dev.read_block (content_dnodes folder i) disk)
                (if_false (content_dnodes folder i == 0) _ _ (Result.ok 0) full e) (used i below) in
            let rest =
              search_folder-added folder added part n dnode (suc i) m disk after entry missed.3
                (omega arith) (omega arith) used same kept new nz is hit in
            rw (same i below, full, kept i below, missed.1, missed.2) rest
      ]

  module _ (laws : IsBlockDevice dev) (fs : DzfsState) where
    -- The folder's entries stand where no block is free and no bitmap stands, and so does the folder, which
    -- is none of its entries.
    pub record IsKept (disk : D) (parent : ℕ) (folder : Block) (n : ℕ) : Type 0 where
      pub contents : HasContents folder n
      pub parent_used : free_bit dev disk parent ≡ false
      pub entry_used : (k : ℕ) → k < n → free_bit dev disk (content_dnodes folder k) ≡ false
      pub entry_above : (k : ℕ) → k < n → 2 + fs.free_bitmap_blocks ≤ content_dnodes folder k
      pub apart : (k : ℕ) → k < n → content_dnodes folder k ≢ parent

    write_entry-ok :
        (parent dnode : ℕ) (folder entry : Block) (disk after : D) (r : ℕ × ℕ)
        → write_entry dev parent folder dnode entry disk ≡ (Result.ok r, after)
        → parent ≢ dnode
        → (r ≡ (dnode, parent))
          × (dev.read_block parent after ≡ some folder)
          × (dev.read_block dnode after ≡ some entry)
          × ((j : ℕ) → j ≢ parent → j ≢ dnode → dev.read_block j after ≡ dev.read_block j disk)
    unfolding write_entry
    write_entry-ok parent dnode folder entry disk after r e ne =
        let w = dev.write_block parent folder disk in
        let v = dev.write_block dnode entry w.1 in
        let g = guard-ok (not w.0) DzfsError.err_io w.1 _ r after e in
        let t = written-ok v.0 (dnode, parent) DzfsError.err_io v.1 r after g.1 in
        let wrote : w.0 ≡ true = ground (arith, g.0) in
        (
          sym t.1,
          ap (dev.read_block parent) (sym t.2)
              ∙ laws.read-write_ne dnode parent entry w.1 (λ e. ne (sym e))
              ∙ laws.read-write_self parent folder disk wrote,
          ap (dev.read_block dnode) (sym t.2) ∙ laws.read-write_self dnode entry w.1 t.0,
          λ j np nd.
              ap (dev.read_block j) (sym t.2)
              ∙ laws.read-write_ne dnode j entry w.1 (λ e. nd (sym e))
              ∙ laws.read-write_ne parent j folder disk (λ e. np (sym e)),
        )

    -- A created entry is found by a search of its folder.
    pub create_entry-search :
        (name : List ℕ) (parent n : ℕ) (folder : Block) (dir : Bool) (disk after : D) (r : ℕ × ℕ)
        → fs.free_bitmap_blocks * 32768 ≤ 2 ^ 32
        → IsName name
        → IsKept disk parent folder n
        → search_folder dev folder name 0 957 disk ≡ Result.ok 0
        → create_entry dev fs name parent folder dir disk ≡ (Result.ok r, after)
        → (r.1 ≡ parent)
          × (r.0 ≢ 0)
          × (added : Block) × (dev.read_block parent after ≡ some added)
          × (search_folder dev added name 0 957 after ≡ Result.ok r.0)
    unfolding create_entry
    create_entry-search name parent n folder dir disk after r fits v k missed e =
        let alloc = block_alloc dev fs disk in
        let count = content_count-contents folder n k.contents in
        let g =
          guard-ok (folder_content_count folder == 957) DzfsError.err_limit disk _ r after e in
        let h = guard-ok (alloc.0 == 0) DzfsError.err_full alloc.1 _ r after g.1 in
        let nz : alloc.0 ≢ 0 = ground (arith, h.0) in
        let taken = block_alloc-Allocated dev laws fs disk fits nz in
        let fresh = λ (j : ℕ) (used : free_bit dev disk j ≡ false).
          (let differ : j ≢ alloc.0 =
              λ e. absurd (ground (arith, taken.was_free, used, ap (free_bit dev disk) e)) in
            differ) in
        let added = set_content_dnodes folder (folder_content_count folder) alloc.0 in
        let entry = new_dnode (dev.current_date alloc.1) name dir parent in
        let w =
          write_entry-ok parent alloc.0 added entry alloc.1 after r h.1
            (fresh parent k.parent_used) in
        let room : n < 957 = ground (arith, g.0, count, k.contents.size) in
        let slots = λ (i : ℕ).
          content_dnodes-set folder (folder_content_count folder) alloc.0 i
            (omega (arith, taken.below)) in
        let searched =
          search_folder-added folder added name n alloc.0 0 957 disk after entry missed
            (omega arith) (omega arith) k.contents.used (λ i hi. ground (arith, slots i, count))
            (λ i hi.
              w.3 (content_dnodes folder i) (k.apart i hi)
                (fresh (content_dnodes folder i) (k.entry_used i hi))
              ∙ taken.frame (content_dnodes folder i)
                  (λ e. absurd (omega (arith, e, k.entry_above i hi, taken.below))))
            (ground (arith, slots n, count)) nz w.2
            (name_is-new_dnode (dev.current_date alloc.1) name dir parent v) in
        let dnode : r.0 ≡ alloc.0 = ap (λ p. p.0) w.0 in
        (ap (λ p. p.1) w.0, rw dnode nz, added, w.1, searched ∙ ap Result.ok (sym dnode))
