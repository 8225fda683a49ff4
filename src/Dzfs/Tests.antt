-- ===== src/Dzfs/Tests.antt =====
-- dzFS on a disk in memory, and its theorems at concrete disks.
use dz_os.Prelude.{
  ℕ, ◌*◌, ◌<◌, ◌≡◌, refl, sym, ◌≢◌, ◌⊎◌, true, false, not, ◌&&◌, ◌||◌, some, List, [], ◌∷◌, arith,
  ltb, leb, ◌==◌, if◌then◌else◌, ==-refl, ==-ne, update,
}
use dz_os.Prelude.{==-refl, ==-ne}
use dz_os.Prelude.Int.{ℤ}
use dz_os.Fs.Inode.{InodeType, Inode, fs_read, fs_write}
use dz_os.Dzfs.Block.{
  Block, content_dnodes, BlockDevice, IsBlockDevice, DzfsState, get_u32, put_u32, file_size,
  indirect_block, direct_blocks,
}
use dz_os.Dzfs.Io.{Result, continue_with}
use dz_os.Dzfs.Bits.{ctz, popcount, popcount_from}
use dz_os.Dzfs.Bitmap.{
  bitmap_clear, find_byte, dnode_at, search_bitmap, find_free, take_block, block_alloc,
  dzfs_free_blocks, count_blocks, count_block, count_bytes, add_byte,
}
use dz_os.Dzfs.Free.{free_bit, bit_in, Allocated}
use dz_os.Dzfs.Taken.{block_alloc-Allocated, block_alloc-none}
use dz_os.Dzfs.Readdir.{fs_readdir}
use dz_os.Dzfs.Listing.{Listed, readdir-Listed}
use dz_os.Dzfs.Folder.{folder_remove_content, folder_content_count, first_empty}
use dz_os.Dzfs.Contents.{HasContents, Removed, remove_content-Removed}
use dz_os.Dzfs.Open.{
  dzfs_open_relative, open_in_folder, open_after_dots, skip_dots, open_from, names_folder, traverse,
  search_folder, after_search, path_last_part, path_next_part_len, create_entry, write_entry,
  put_bytes,
}
use dz_os.Dzfs.Traverse.{open_relative-disk}
use dz_os.Dzfs.Name.{IsName}
use dz_os.Dzfs.Create.{IsKept}
use dz_os.Dzfs.Reopen.{open_relative-open_relative}
use dz_os.Dzfs.Format.{dzfs_new, write_layout, write_full, write_or_fail}
use dz_os.Dzfs.Layout.{dzfs_new-free_bit}
use dz_os.Dzfs.File.{
  dzfs_write, write_file, load_indirect, write_loaded, write_blocks, write_round, content_block,
  get_or_allocate_block, write_content, write_back,
}
use dz_os.Dzfs.Interface.{dzfs_operations, succeeded, fs_read-fs_write}
use dz_os.Dzfs.Count.{count, free_blocks-count, free_blocks-block_alloc}

-- a disk of blocks in memory
abbrev Disk : Type 0
Disk = ℕ → Block

abbrev ram : ℕ → BlockDevice Disk
ram blocks = record {
  read_block = λ i disk. some (disk i);
  write_block = λ i b disk. (true, update disk i b);
  current_date = λ disk. 1700000000;
  total_blocks = blocks;
}

ram-IsBlockDevice : (blocks : ℕ) → IsBlockDevice (ram blocks)
ram-IsBlockDevice blocks = record {
  read-write_self = λ i b disk ok. rw (==-refl i) refl;
  read-write_ne = λ i j b disk ne. rw (==-ne j i (λ e. ne (sym e))) refl;
}

-- a disk of one bitmap, in which blocks 4 to 7 are free, and with an empty root folder in block 3
abbrev small_disk : Disk
small_disk i =
    if i == 2
    then (λ j. if j == 0 then 240 else 0)
    else if i == 3
    then (λ j. if j == 0 then 2 else if j == 264 then 3 else 0)
    else (λ j. 0)

abbrev small_fs : DzfsState
small_fs = record { blocks = 100; free_bitmap_blocks = 1; root_dnode = 3 }

takes_four : (block_alloc (ram 100) small_fs small_disk).0 ≡ 4
unfolding block_alloc find_free search_bitmap find_byte dnode_at ctz take_block
takes_four = refl

alloc_example :
    Allocated
      (ram 100)
      small_fs
      small_disk
      (block_alloc (ram 100) small_fs small_disk).0
      (block_alloc (ram 100) small_fs small_disk).1
alloc_example =
    block_alloc-Allocated (ram 100) (ram-IsBlockDevice 100) small_fs small_disk (omega arith)
      (λ e. absurd (omega (arith, e, takes_four)))

full_is_0 : (block_alloc (ram 100) small_fs (λ i j. 0)).0 ≡ 0
unfolding block_alloc find_free search_bitmap find_byte dnode_at ctz take_block
full_is_0 = refl

block_0_taken : free_bit (ram 100) (λ i j. 0) 0 ≡ false
unfolding free_bit bit_in
block_0_taken = refl

full_example : free_bit (ram 100) (λ i j. 0) 40 ≡ false
full_example =
    block_alloc-none (ram 100) (ram-IsBlockDevice 100) small_fs (λ i j. 0) (omega arith) (λ i. refl)
      (λ i b. refl) block_0_taken full_is_0 40 (omega arith)

count_example :
    dzfs_free_blocks (ram 100) small_fs small_disk
    ≡ some (count (free_bit (ram 100) small_disk) 0 (32768 * 1))
count_example = free_blocks-count (ram 100) small_fs small_disk (λ i. refl) (omega arith)

three_left :
    dzfs_free_blocks (ram 100) small_fs (block_alloc (ram 100) small_fs small_disk).1 ≡ some 3
unfolding dzfs_free_blocks count_blocks count_block count_bytes add_byte popcount popcount_from
    block_alloc find_free search_bitmap find_byte dnode_at ctz take_block bitmap_clear
three_left = refl

one_less_example : dzfs_free_blocks (ram 100) small_fs small_disk ≡ some 4
one_less_example =
    free_blocks-block_alloc (ram 100) small_fs small_disk 3 (ram-IsBlockDevice 100) (λ i d. refl)
      (omega arith) (λ e. absurd (omega (arith, e, takes_four))) three_left

formats : dzfs_new (ram 32768) small_disk ≡ (
  Result.ok (record { blocks = 32768; free_bitmap_blocks = 1; root_dnode = 3 }),
  (dzfs_new (ram 32768) small_disk).1,
)
unfolding dzfs_new write_layout write_full write_or_fail continue_with
formats = refl

new_example :
    free_bit (ram 32768) (dzfs_new (ram 32768) small_disk).1 20
    ≡ (leb 4 20 && (ltb 20 32768 || not (1 == 1)))
new_example =
    dzfs_new-free_bit (ram 32768) (ram-IsBlockDevice 32768) _ small_disk _ formats (omega arith)
      (omega arith) 20 (omega arith)

-- a folder with the entries 5 and 6
abbrev two_entries : Block
two_entries j = if j == 268 then 5 else if j == 272 then 6 else 0

two_entries-HasContents : HasContents two_entries 2
unfolding get_u32
two_entries-HasContents = record {
  size = omega arith;
  used = λ k h. ground arith;
  empty = λ k low high. ground arith;
}

remove_example :
    (((folder_remove_content two_entries 5).0 ≡ true)
      × Removed two_entries 2 5 (folder_remove_content two_entries 5).1)
    ⊎ ((folder_remove_content two_entries 5 ≡ (false, two_entries))
        × ((k : ℕ) → k < 957 → content_dnodes two_entries k ≢ 5))
remove_example = remove_content-Removed two_entries 2 5 two_entries-HasContents (omega arith)

-- "a/b"
abbrev nested_path : List ℕ
nested_path = 97 ∷ 47 ∷ 98 ∷ []

read_only_example :
    (dzfs_open_relative (ram 100) small_fs nested_path 3 0 small_disk).1 ≡ small_disk
read_only_example = open_relative-disk (ram 100) small_fs nested_path 3 0 small_disk refl

-- "a"
letter_a-IsName : IsName (97 ∷ [])
letter_a-IsName = record {
  characters = ((omega arith, omega arith), tt);
  some_character = omega arith;
  short = omega arith;
  no_dot = omega arith;
}

root-HasContents : HasContents (small_disk 3) 0
unfolding get_u32
root-HasContents = record {
  size = omega arith;
  used = λ k h. absurd (omega arith);
  empty = λ k low high. ground arith;
}

root-IsKept : IsKept (ram 100) (ram-IsBlockDevice 100) small_fs small_disk 3 (small_disk 3) 0
unfolding free_bit bit_in
root-IsKept = record {
  contents = root-HasContents;
  parent_used = refl;
  entry_used = λ k h. absurd (omega arith);
  entry_above = λ k h. absurd (omega arith);
  apart = λ k h. absurd (omega arith);
}

creates_a :
    dzfs_open_relative (ram 100) small_fs (97 ∷ []) 3 1 small_disk
    ≡ (Result.ok (4, 3), (dzfs_open_relative (ram 100) small_fs (97 ∷ []) 3 1 small_disk).1)
unfolding dzfs_open_relative open_in_folder open_after_dots skip_dots open_from names_folder
    traverse search_folder after_search path_last_part path_next_part_len create_entry
    folder_content_count first_empty get_u32 block_alloc find_free search_bitmap find_byte dnode_at
    ctz take_block write_entry
creates_a = refl

reopen_example :
    dzfs_open_relative
      (ram 100)
      small_fs
      (97 ∷ [])
      3
      0
      (dzfs_open_relative (ram 100) small_fs (97 ∷ []) 3 1 small_disk).1
    ≡ (Result.ok (4, 3), (dzfs_open_relative (ram 100) small_fs (97 ∷ []) 3 1 small_disk).1)
reopen_example =
    open_relative-open_relative (ram 100) small_fs (ram-IsBlockDevice 100) (97 ∷ []) 3 0
      (small_disk 3) 1 small_disk _ (4, 3) (omega arith) letter_a-IsName (omega arith) refl
      root-IsKept creates_a

-- an inode of an empty file in block 3
abbrev empty_file : Block
empty_file j = if j == 0 then 1 else 0

abbrev file_disk : Disk
file_disk i = if i == 3 then empty_file else small_disk i

abbrev file_inodes : ℕ → Inode
file_inodes i = record {
  kind = InodeType.inode_file;
  dnode = 3;
  parent_dnode = 3;
  size = 0;
  reference_count = 1;
}

abbrev two_bytes : List ℕ
two_bytes = 72 ∷ 105 ∷ []

dnode_taken : free_bit (ram 100) file_disk 3 ≡ false
unfolding free_bit bit_in
dnode_taken = refl

file_is_empty :
    (file_size empty_file ≡ 0) × (indirect_block empty_file ≡ 0) × (direct_blocks empty_file 0 ≡ 0)
unfolding get_u32
file_is_empty = (refl, refl, refl)

writes_two :
    (fs_write (dzfs_operations (ram 100) small_fs) 0 two_bytes 0 file_inodes file_disk).0 ≡ ℤ.pos 2
unfolding fs_write dzfs_operations dzfs_write write_file load_indirect get_u32 write_loaded
    write_blocks write_round content_block get_or_allocate_block write_content write_back
    continue_with succeeded block_alloc find_free search_bitmap find_byte dnode_at ctz take_block
    put_u32 put_bytes
writes_two = refl

reread_example :
    fs_read
      (dzfs_operations (ram 100) small_fs)
      0
      2
      0
      (fs_write (dzfs_operations (ram 100) small_fs) 0 two_bytes 0 file_inodes file_disk).1
      (fs_write (dzfs_operations (ram 100) small_fs) 0 two_bytes 0 file_inodes file_disk).2
    ≡ some two_bytes
reread_example =
    fs_read-fs_write (ram 100) (ram-IsBlockDevice 100) small_fs 0 file_inodes two_bytes 0 empty_file
      file_disk (omega arith) refl file_is_empty.1 dnode_taken
      (λ e. absurd (omega (arith, e, file_is_empty.2))) (omega arith, (omega arith, tt))
      (omega arith) (omega arith) (omega arith) (omega (arith, file_is_empty.0)) writes_two

listing_example : Listed 100 (
    fs_readdir
      (ram 100)
      (record (file_inodes 0) { kind = InodeType.inode_directory })
      100
      0
      small_disk)
listing_example =
    readdir-Listed (ram 100) (record (file_inodes 0) { kind = InodeType.inode_directory }) 100 0
      small_disk
