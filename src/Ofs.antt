-- ===== src/Ofs.antt =====
-- user/vfs-server/src/blockfs.rs: the file system of the file server, over a block device.
pub mod Device
pub mod Buffer
pub mod Journal
pub mod Inode
pub mod Cache
pub mod State
pub mod Run
pub mod Bitmap
pub mod Table
pub mod Blocks
pub mod File
pub mod Dirent
pub mod Dir
pub mod Format
mod Tests
