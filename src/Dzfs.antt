-- ===== src/Dzfs.antt =====
-- The file system dzFS: kernel/src/fs/dzfs.c and dzfs.h.
pub mod Block
pub mod Bits
pub mod Bitmap
mod Alloc
mod Free
mod Taken
mod Count
pub mod Io
pub mod Folder
pub mod Open
pub mod File
pub mod Entry
pub mod Move
pub mod Format
mod Cleared
mod Layout
mod Contents
mod Traverse
mod Name
mod Create
mod Reopen
mod Reread
mod Roundtrip
mod Loops
mod Interface
pub mod Readdir
mod Listing
pub mod Boot
mod Tests
