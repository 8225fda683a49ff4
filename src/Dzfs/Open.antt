-- ===== src/Dzfs/Open.antt =====
-- `dzfs_open_absolute` and `dzfs_open_relative` of kernel/src/fs/dzfs.c. A path is its characters, without
-- the terminator.
use dz_os.Prelude.{
  ℕ, zero, suc, ◌+◌, ◌/◌, ◌%◌, ◌^◌, Bool, true, false, not, ◌&&◌, ◌||◌, Option, none, some, List,
  [], ◌∷◌, leb, ◌==◌, if◌then◌else◌, u32, length, take, drop,
}
use dz_os.Prelude.{drop, take, is_some}
use dz_os.Dzfs.Block.{
  Block, BlockDevice, DzfsState, DzfsError, zero_block, put_u8, put_u32, header_type, folder_parent,
  content_dnodes, set_content_dnodes, dzfs_max_dir_contents, dzfs_entity_file, dzfs_entity_folder,
}
use dz_os.Dzfs.Io.{Result, Io}
use dz_os.Dzfs.Bitmap.{block_alloc}
use dz_os.Dzfs.Folder.{folder_content_count, name_is}

abbrev pub dot : ℕ
dot = 46

abbrev pub slash : ℕ
slash = 47

unfoldable pub path_next_part_len : List ℕ → ℕ
path_next_part_len [] = 0
path_next_part_len (c ∷ str) =
    let rest = path_next_part_len str in if c == slash then 0 else suc rest

-- `str[i] == '\0'`
abbrev pub ends_at : List ℕ → ℕ → Bool
ends_at str i = leb (length str) i

unfoldable pub path_last_part : List ℕ → Bool
path_last_part str =
    let current_len = path_next_part_len str in
    ends_at str current_len || ends_at str (current_len + 1)

-- `flags & DZFS_O_CREATE` and `flags & DZFS_O_DIR`
abbrev pub o_create : ℕ → Bool
o_create flags = flags % 2 == 1

abbrev pub o_dir : ℕ → Bool
o_dir flags = flags / 2 % 2 == 1

unfoldable pub put_bytes : Block → ℕ → List ℕ → Block
put_bytes b i [] = b
put_bytes b i (x ∷ xs) = put_bytes (put_u8 b i x) (suc i) xs

-- the block of an entry just created
unfoldable pub new_dnode : ℕ → List ℕ → Bool → ℕ → Block
new_dnode date name dir parent =
    let dated = put_u32 (put_u32 zero_block 256 (u32 date)) 260 (u32 (date / 2 ^ 32)) in
    let named = put_u8 (put_bytes dated 1 name) (1 + length name) 0 in
    if dir
    then put_u32 (put_u8 named 0 dzfs_entity_folder) 264 parent
    else put_u8 named 0 dzfs_entity_file

unfoldable pub try_io : {A : Type 0} → Option A → Result A
try_io none = Result.failed DzfsError.err_io
try_io (some a) = Result.ok a

unfoldable pub then_try : {A B : Type 0} → Result A → (A → Result B) → Result B
then_try (Result.failed e) f = Result.failed e
then_try (Result.ok a) f = f a

-- one round of the search for a name, given what the rest of it returns
unfoldable pub match_entry : List ℕ → ℕ → Result ℕ → Option Block → Result ℕ
match_entry part dnode rest none = Result.failed DzfsError.err_io
match_entry part dnode rest (some b) = if name_is b 0 part then Result.ok dnode else rest

-- one directory up, from the folder's block
abbrev pub up_from : ℕ → Block → ℕ
up_from relative_to b = if folder_parent b == 0 then relative_to else folder_parent b

-- whether the path left is empty or `.`
unfoldable pub names_folder : List ℕ → Bool
names_folder [] = true
names_folder (c ∷ []) = c == dot
names_folder (c ∷ d ∷ path) = false

module _ {D : Type 0} (dev : BlockDevice D) where
  -- the `while (1)` over `./`, `../` and a last `..`: the folder reached and the path left
  unfoldable pub skip_dots : ℕ → List ℕ → D → Result (ℕ × List ℕ)
  skip_dots relative_to [] disk = Result.ok (relative_to, [])
  skip_dots relative_to (a ∷ []) disk = Result.ok (relative_to, a ∷ [])
  skip_dots relative_to (a ∷ b ∷ []) disk =
      if a == dot && b == slash
      then Result.ok (relative_to, [])
      else if a == dot && b == dot
      then then_try (try_io (dev.read_block relative_to disk))
          (λ block. Result.ok (up_from relative_to block, []))
      else Result.ok (relative_to, a ∷ b ∷ [])
  skip_dots relative_to (a ∷ b ∷ c ∷ path) disk =
      let here = skip_dots relative_to (c ∷ path) disk in
      let up =
        then_try (try_io (dev.read_block relative_to disk))
          (λ block. skip_dots (up_from relative_to block) path disk) in
      if a == dot && b == slash
      then here
      else if a == dot && b == dot && c == slash
      then up
      else Result.ok (relative_to, a ∷ b ∷ c ∷ path)

  -- the search of a folder for a part of the path, `n` slots from `i`; 0 is not found
  unfoldable pub search_folder : Block → List ℕ → ℕ → ℕ → D → Result ℕ
  search_folder dir part i zero disk = Result.ok 0
  search_folder dir part i (suc n) disk =
      let rest = search_folder dir part (suc i) n disk in
      let found =
        match_entry part (content_dnodes dir i) rest (dev.read_block (content_dnodes dir i) disk) in
      if content_dnodes dir i == 0 then Result.ok 0 else found

  -- the two writes that end a creation
  unfoldable pub write_entry : ℕ → Block → ℕ → Block → Io D (ℕ × ℕ)
  write_entry parent folder dnode entry disk =
      let w = dev.write_block parent folder disk in
      let v = dev.write_block dnode entry w.1 in
      if not w.0
      then (Result.failed DzfsError.err_io, w.1)
      else ((if v.0 then Result.ok (dnode, parent) else Result.failed DzfsError.err_io), v.1)

  -- the creation of an entry for the last part of the path
  unfoldable pub create_entry : DzfsState → List ℕ → ℕ → Block → Bool → Io D (ℕ × ℕ)
  create_entry fs part parent folder dir disk =
      let folder_size = folder_content_count folder in
      let alloc = block_alloc dev fs disk in
      let dnode = alloc.0 in
      let created =
        write_entry parent (set_content_dnodes folder folder_size dnode) dnode
          (new_dnode (dev.current_date alloc.1) part dir parent) alloc.1 in
      if folder_size == dzfs_max_dir_contents
      then (Result.failed DzfsError.err_limit, disk)
      else if dnode == 0
      then (Result.failed DzfsError.err_full, alloc.1)
      else created

  -- the step into a folder, given its block read and the rest of the traversal
  unfoldable pub descend : Option Block → (Block → Io D (ℕ × ℕ)) → Io D (ℕ × ℕ)
  descend none next disk = (Result.failed DzfsError.err_io, disk)
  descend (some b) next disk =
      let entered = next b disk in
      if header_type b == dzfs_entity_folder
      then entered
      else (Result.failed DzfsError.err_not_found, disk)

  -- what follows the search in a round of the traversal
  unfoldable pub after_search :
      DzfsState → List ℕ → ℕ → Block → ℕ → Result ℕ → (ℕ → Block → Io D (ℕ × ℕ)) → Io D (ℕ × ℕ)
  after_search fs path index folder flags (Result.failed e) next disk = (Result.failed e, disk)
  after_search fs path index folder flags (Result.ok found) next disk =
      let part = take (path_next_part_len path) path in
      let created = create_entry fs part index folder (o_dir flags) disk in
      let entered = descend (dev.read_block found disk) (next found) disk in
      if found == 0
      then (if o_create flags && path_last_part path
          then created
          else (Result.failed DzfsError.err_not_found, disk))
      else if path_last_part path
      then (Result.ok (found, index), disk)
      else entered

  -- the traversal, on fuel: every round drops a part and its slash, so the path's length is enough
  unfoldable pub traverse : ℕ → DzfsState → List ℕ → ℕ → Block → ℕ → Io D (ℕ × ℕ)
  traverse zero fs path index folder flags disk = (Result.failed DzfsError.err_not_found, disk)
  traverse (suc n) fs path index folder flags disk =
      let len = path_next_part_len path in
      after_search fs path index folder flags
        (search_folder folder (take len path) 0 dzfs_max_dir_contents disk)
        (λ found b. traverse n fs (drop (len + 1) path) found b flags) disk

  -- from the folder and the path that the dots leave
  unfoldable pub open_from : DzfsState → ℕ → List ℕ → Option Block → ℕ → Io D (ℕ × ℕ)
  open_from fs relative_to path none flags disk = (Result.failed DzfsError.err_io, disk)
  open_from fs relative_to path (some b) flags disk =
      let traversed = traverse (length path) fs path relative_to b flags disk in
      if names_folder path then (Result.ok (relative_to, folder_parent b), disk) else traversed

  unfoldable pub open_after_dots : DzfsState → Result (ℕ × List ℕ) → ℕ → Io D (ℕ × ℕ)
  open_after_dots fs (Result.failed e) flags disk = (Result.failed e, disk)
  open_after_dots fs (Result.ok (relative_to, path)) flags disk =
      open_from fs relative_to path (dev.read_block relative_to disk) flags disk

  -- `dzfs_open_relative` of a path that does not start with a slash
  unfoldable pub open_in_folder : DzfsState → List ℕ → ℕ → ℕ → Io D (ℕ × ℕ)
  open_in_folder fs path relative_to flags disk =
      let opened = open_after_dots fs (skip_dots relative_to path disk) flags disk in
      if relative_to == 0
      then (Result.failed DzfsError.err_argument, disk)
      else if is_some (dev.read_block relative_to disk)
      then opened
      else (Result.failed DzfsError.err_io, disk)

  -- `dzfs_open_absolute` behind its slash, given what `dzfs_open_relative` returns from the root
  unfoldable pub open_rooted : DzfsState → List ℕ → Result (ℕ × ℕ) × D → Io D (ℕ × ℕ)
  open_rooted fs [] opened disk = (Result.ok (fs.root_dnode, fs.root_dnode), disk)
  open_rooted fs (c ∷ path) opened disk = opened

  -- The call of `dzfs_open_absolute` on a leading slash is written out: each drops one.
  unfoldable pub dzfs_open_relative : DzfsState → List ℕ → ℕ → ℕ → Io D (ℕ × ℕ)
  dzfs_open_relative fs [] relative_to flags disk = open_in_folder fs [] relative_to flags disk
  dzfs_open_relative fs (c ∷ path) relative_to flags disk =
      let absolute =
        open_rooted fs path (dzfs_open_relative fs path fs.root_dnode flags disk) disk in
      let opened = open_in_folder fs (c ∷ path) relative_to flags disk in
      if c == slash then absolute else opened

  unfoldable pub dzfs_open_absolute : DzfsState → List ℕ → ℕ → Io D (ℕ × ℕ)
  dzfs_open_absolute fs [] flags disk = (Result.failed DzfsError.err_argument, disk)
  dzfs_open_absolute fs (c ∷ path) flags disk =
      if c == slash
      then open_rooted fs path (dzfs_open_relative fs path fs.root_dnode flags disk) disk
      else (Result.failed DzfsError.err_argument, disk)
