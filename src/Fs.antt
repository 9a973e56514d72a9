-- ===== src/Fs.antt =====
-- The file system, kernel/fs.c: block allocation, the content of files, the inode cache,
-- directories and path names.
pub mod Bitmap
pub mod File
pub mod Inodes
pub mod Dir
pub mod Path
mod Tests
