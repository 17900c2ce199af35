-- ===== src/Fuse.antt =====
-- src/fuse/: the FUSE file system over `FileSystem`.
pub mod Inode
pub mod Errno
pub mod OpenFile
pub mod Attr
pub mod Actions
pub mod Handlers
pub mod Transfer
pub mod Saved
pub mod Fetched
