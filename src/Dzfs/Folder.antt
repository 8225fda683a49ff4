-- ===== src/Dzfs/Folder.antt =====
-- Folders of dzFS (kernel/src/fs/dzfs.c): their slots, and the names of the entries.
use dz_os.Prelude.{
  ℕ, zero, suc, ◌-◌, Bool, true, false, ◌&&◌, Option, none, some, List, [], ◌∷◌, ◌==◌,
  if◌then◌else◌,
}
use dz_os.Dzfs.Block.{
  Block, BlockDevice, header_name, content_dnodes, set_content_dnodes, dzfs_max_dir_contents,
}

-- `n` slots from `i`: the first empty one, or the end
unfoldable pub first_empty : Block → ℕ → ℕ → ℕ
first_empty dir i zero = i
first_empty dir i (suc n) =
    let rest = first_empty dir (suc i) n in if content_dnodes dir i == 0 then i else rest

unfoldable pub folder_content_count : Block → ℕ
folder_content_count dir = first_empty dir 0 dzfs_max_dir_contents

-- the first of `n` slots from `i` that holds `target`
unfoldable pub find_slot : Block → ℕ → ℕ → ℕ → Option ℕ
find_slot dir target i zero = none
find_slot dir target i (suc n) =
    let rest = find_slot dir target (suc i) n in
    if content_dnodes dir i == target then some i else rest

-- the last slot in use takes the place of slot `i`
unfoldable pub remove_slot : Block → ℕ → ℕ → Block
remove_slot dir last i =
    if last == 0
    then set_content_dnodes dir 0 0
    else if last == i
    then set_content_dnodes dir last 0
    else set_content_dnodes (set_content_dnodes dir i (content_dnodes dir last)) last 0

-- the folder, and whether the target was found
unfoldable pub remove_found : Block → Option ℕ → Bool × Block
remove_found dir none = (false, dir)
remove_found dir (some i) = (true, remove_slot dir (folder_content_count dir - 1) i)

unfoldable pub folder_remove_content : Block → ℕ → Bool × Block
folder_remove_content dir target = remove_found dir (find_slot dir target 0 dzfs_max_dir_contents)

-- whether the name in the header, from character `i`, is these characters and the terminator
unfoldable pub name_is : Block → ℕ → List ℕ → Bool
name_is b i [] = header_name b i == 0
name_is b i (c ∷ cs) = header_name b i == c && name_is b (suc i) cs

-- one round of `folder_lookup_name`, given what the rest of it returns; 0 is not found
unfoldable pub lookup_entry : List ℕ → ℕ → ℕ → Option Block → ℕ
lookup_entry name dnode rest none = 0
lookup_entry name dnode rest (some b) = if name_is b 0 name then dnode else rest

module _ {D : Type 0} (dev : BlockDevice D) where
  -- `n` slots from `i`
  unfoldable pub lookup_from : Block → List ℕ → ℕ → ℕ → D → ℕ
  lookup_from dir name i zero disk = 0
  lookup_from dir name i (suc n) disk =
      let rest = lookup_from dir name (suc i) n disk in
      let found =
        lookup_entry name (content_dnodes dir i) rest
          (dev.read_block (content_dnodes dir i) disk) in
      if content_dnodes dir i == 0 then 0 else found

  unfoldable pub folder_lookup_name : Block → List ℕ → D → ℕ
  folder_lookup_name dir name disk = lookup_from dir name 0 dzfs_max_dir_contents disk
