-- ===== src/Fuse/Errno.antt =====
-- src/fuse/error.rs: the error numbers, with the names that `async_fuser` gives them.
use edfs.FileSystem.{
  FileSystemError, not_found, reserved_node, storage_full, not_a_directory, is_a_directory,
  directory_not_empty, already_exists,
}

pub data Errno : Type 0 where
  enoent enotdir eisdir enotempty eexist enospc eperm ebadf efbig einval enotsup eio : Errno

-- `impl From<FileSystemError> for Errno`.
abbrev pub errno : FileSystemError → Errno
errno not_found = enoent
errno not_a_directory = enotdir
errno is_a_directory = eisdir
errno directory_not_empty = enotempty
errno already_exists = eexist
errno storage_full = enospc
errno reserved_node = eperm
