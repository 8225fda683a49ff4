-- ===== src/Fs/Tests.antt =====
-- Runs of the inode table and of the open files.
use dz_os.Prelude.{ℕ, true, false, none, some, arith, ◌==◌, if◌then◌else◌}
use dz_os.Fs.Inode.{Inode, InodeType, Entity, open_inode}
use dz_os.Fs.File.{FileType, ProcessFile, Process}
use dz_os.Fs.Table.{IsTable, Opens, open_inode-Opens}

-- inode 0 stands for dnode 7, and the others are empty
abbrev inodes : ℕ → Inode
inodes i = record {
  kind = if i == 0 then InodeType.inode_file else InodeType.inode_empty;
  dnode = if i == 0 then 7 else 0;
  parent_dnode = 1;
  size = 10;
  reference_count = 1;
}

inodes-IsTable : IsTable inodes
inodes-IsTable = record {
  counted = λ i h used. omega arith;
  one_each = λ i j h h' u u' e. ground arith;
}

open_example : Opens inodes 7 (open_inode 7 1 (some (Entity.entity_file, 10)) inodes)
open_example =
    open_inode-Opens inodes 7 1 (some (Entity.entity_file, 10)) inodes-IsTable (λ i. omega arith) tt

abbrev file : ProcessFile
file = record { kind = FileType.fd_inode 0; offset = 3; readable = true; writable = false }

abbrev process : Process
process = record { open_files = λ i. file; working_directory = none }
