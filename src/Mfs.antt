-- ===== src/Mfs.antt =====
-- The file system of Project4/mfs.c. Children: `Bitmap` (the bits of a block), `Device` (reading and
-- writing blocks), `Alloc` (taking and giving back inodes and blocks), `Inode` (the
-- inode table), `Dir` (the root directory), `Create` (making and removing files),
-- `Content` (the bytes of files), `Format`
-- (make_mfs.c and mounting), `Tests`.
pub mod Bitmap
pub mod Device
pub mod Alloc
pub mod Inode
pub mod Dir
pub mod Create
pub mod Content
pub mod Format
mod Tests
