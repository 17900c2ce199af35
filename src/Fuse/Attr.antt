-- ===== src/Fuse/Attr.antt =====
-- src/fuse/attr.rs: `to_attr`. The four times are `UNIX_EPOCH`, and `uid`, `gid`, `rdev` and `flags`
-- are 0, for every node; they are left out. `utf8` is the encoding of a `String`.
use edfs.Config.{fuse_block_size_bytes}
use edfs.Domain.{Bytes, NodeMeta, directory, regular_file, symlink}
use edfs.Fuse.Inode.{INodeNo}
use edfs.Prelude.{ℕ, ◌+◌, ◌-◌, ◌/◌, String, length}

pub data FileType : Type 0 where
  directory_type file_type symlink_type : FileType

pub record FileAttr : Type 0 where
  pub ino : INodeNo
  pub size : ℕ
  pub blocks : ℕ
  pub kind : FileType
  pub perm : ℕ
  pub nlink : ℕ
  pub blksize : ℕ

abbrev pub file_type_of : NodeMeta → FileType
file_type_of (directory name) = directory_type
file_type_of (regular_file name size chunk_refs) = file_type
file_type_of (symlink name target) = symlink_type

abbrev pub size_of : (String → Bytes) → NodeMeta → ℕ
size_of utf8 (directory name) = fuse_block_size_bytes
size_of utf8 (regular_file name size chunk_refs) = size
size_of utf8 (symlink name target) = length (utf8 target)

abbrev pub nlink_of : FileType → ℕ
nlink_of directory_type = 2
nlink_of file_type = 1
nlink_of symlink_type = 1

-- `div_ceil`.
abbrev pub div_ceil : ℕ → ℕ → ℕ
div_ceil n d = (n + (d - 1)) / d

abbrev pub to_attr : (String → Bytes) → NodeMeta → INodeNo → FileAttr
to_attr utf8 meta ino = record {
  ino = ino;
  size = size_of utf8 meta;
  blocks = div_ceil (size_of utf8 meta) fuse_block_size_bytes;
  kind = file_type_of meta;
  perm = 0o777;
  nlink = nlink_of (file_type_of meta);
  blksize = fuse_block_size_bytes;
}
