-- ===== src/Fs.antt =====
-- The inodes in use and the open files: kernel/src/fs/fs.c and file.c.
pub mod Inode
pub mod File
pub mod Devices
mod Search
mod Table
mod Seek
mod Tests
