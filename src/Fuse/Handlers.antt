-- ===== src/Fuse/Handlers.antt =====
-- src/fuse/mod.rs: the handlers of names and attributes. A reply's fixed parts (`TTL`, `GENERATION`, the empty open flags)
-- and the arguments that no handler reads are left out; a name is what `to_string_lossy` makes of it.
use edfs.Config.{fuse_block_size_bytes, fuse_max_name_length}
use edfs.Crates.{Crates}
use edfs.Domain.{Bytes, ChunkHash, NodeId, NodeMeta, directory, regular_file, symlink}
use edfs.FileSystem
use edfs.FileSystem.{FileSystem, FileSystemEntry, child_id, list_directory, parent_id}
use edfs.FileSystem.Chunks.{capacity_bytes, free_bytes}
use edfs.FileSystem.Mutate.{
  TreeMutation, create_directory, create_file, create_symlink, delete_directory, delete_file,
  write_file, truncate_file,
}
use edfs.FileSystem.Mutate
use edfs.Fuse.Actions.{
  FuseFileSystem, Action, ◌>>=◌, reply, fail, query, next_fh, ino_to_node_id, node_id_to_ino,
  broadcast,
}
use edfs.Fuse.Attr.{FileType, directory_type, FileAttr, to_attr, file_type_of, div_ceil}
use edfs.Fuse.Errno.{enotsup, eisdir, einval, enotdir}
use edfs.Fuse.Inode.{INodeNo}
use edfs.Fuse.OpenFile
use edfs.Fuse.OpenFile.{FileHandle, release_file, needs_buffer, set_buffer}
use edfs.Prelude.{
  ℕ, ◌+◌, ◌/◌, String, Bool, Option, none, some, List, [], ◌∷◌, drop, ok, if◌then◌else◌, u64_max,
}

-- What `statfs` answers.
pub record Statfs : Type 0 where
  pub blocks : ℕ
  pub bfree : ℕ
  pub bavail : ℕ
  pub files : ℕ
  pub ffree : ℕ
  pub bsize : ℕ
  pub namelen : ℕ
  pub frsize : ℕ

-- `DirectoryResponse` of the crate `async_fuser`: `add` says whether the reply is full.
pub record Listing : Type 1 where
  pub Reply : Type 0
  pub empty : ℕ → Reply
  pub add : Reply → INodeNo → ℕ → FileType → String → Bool × Reply

-- The loop of `readdir` over the entries behind `offset`; `i` counts them.
unfoldable pub add_entries :
    (listing : Listing) → listing.Reply → ℕ → List (INodeNo × FileType × String) → listing.Reply
add_entries listing r i [] = r
add_entries listing r i ((ino, kind, name) ∷ entries) =
    let (full, r') = listing.add r ino (i + 1) kind name in
    let rest = add_entries listing r' (i + 1) entries in if full then r' else rest

module _ (crates : Crates) (utf8 : String → Bytes) (fetch : ChunkHash → Option Bytes) where
  open crates use {Replica}

  -- The end of `lookup`, `mkdir`, `symlink` and `create`: the node's number and attributes.
  abbrev pub entry_reply : NodeId → NodeMeta → Action Replica FileAttr
  entry_reply node_id meta =
      node_id_to_ino node_id >>= λ node_ino. reply (to_attr utf8 meta node_ino)

  unfoldable pub lookup : INodeNo → String → Action Replica FileAttr
  lookup parent_ino name = ino_to_node_id parent_ino >>= λ parent.
      query (λ fs. child_id crates fs parent name) >>= λ node_id.
      query (λ fs. FileSystem.metadata crates fs node_id) >>= λ meta. entry_reply node_id meta

  -- `getattr` and the end of `setattr`, without a handle.
  abbrev pub node_attr : INodeNo → NodeId → Action Replica FileAttr
  node_attr node_ino node_id = query (λ fs. FileSystem.metadata crates fs node_id) >>= λ meta.
      reply (to_attr utf8 meta node_ino)

  abbrev pub handle_meta : FuseFileSystem Replica → Option FileHandle → Option NodeMeta
  handle_meta s none = none
  handle_meta s (some fh) = OpenFile.metadata s.open_files fh

  unfoldable pub getattr : INodeNo → Option FileHandle → Action Replica FileAttr
  getattr node_ino fh s = elim (handle_meta s fh) [
    | some meta ↦ (ok (to_attr utf8 meta node_ino), s)
    | none ↦ (ino_to_node_id node_ino >>= λ node_id. node_attr node_ino node_id) s
  ]

  abbrev pub resize : ℕ → NodeId → Option ℕ → Action Replica Unit
  resize now node_id none = reply tt
  resize now node_id (some new_size) =
      broadcast (λ fs. truncate_file crates now fs node_id new_size)

  -- `any_other` says whether any attribute but the size is given.
  unfoldable pub setattr : ℕ → INodeNo → Bool → Option ℕ → Action Replica FileAttr
  setattr now node_ino any_other new_size =
      if any_other
      then fail enotsup
      else ino_to_node_id node_ino >>= λ node_id.
          resize now node_id new_size >>= λ done. node_attr node_ino node_id

  unfoldable pub mkdir : ℕ → INodeNo → String → Action Replica FileAttr
  mkdir now parent_ino name = ino_to_node_id parent_ino >>= λ parent.
      broadcast (λ fs. create_directory crates now fs parent name) >>= λ entry.
      entry_reply entry.node_id entry.meta

  unfoldable pub rmdir : ℕ → INodeNo → String → Action Replica Unit
  rmdir now parent_ino name = ino_to_node_id parent_ino >>= λ parent.
      broadcast (λ fs. delete_directory crates now fs parent name)

  unfoldable pub unlink : ℕ → INodeNo → String → Action Replica Unit
  unlink now parent_ino name = ino_to_node_id parent_ino >>= λ parent.
      broadcast (λ fs. delete_file crates now fs parent name)

  unfoldable pub rename : ℕ → INodeNo → String → INodeNo → String → Action Replica Unit
  rename now parent_ino name new_parent_ino new_name = ino_to_node_id parent_ino >>= λ parent.
      ino_to_node_id new_parent_ino >>= λ new_parent.
      broadcast (λ fs. Mutate.rename crates now fs parent name new_parent new_name)

  unfoldable pub create : ℕ → INodeNo → String → Action Replica (FileAttr × FileHandle)
  create now parent_ino name = ino_to_node_id parent_ino >>= λ parent.
      broadcast (λ fs. create_file crates now fs parent name) >>= λ entry.
      node_id_to_ino entry.node_id >>= λ node_ino. next_fh >>= λ fh s. (
        ok (to_attr utf8 entry.meta node_ino, fh),
        record s { open_files = OpenFile.create_file s.open_files fh entry.meta },
      )

  abbrev pub open_meta : NodeMeta → Action Replica FileHandle
  open_meta (regular_file name size chunk_refs) = next_fh >>= λ fh s. (
    ok fh,
    record s {
      open_files = OpenFile.open_file s.open_files fh (regular_file name size chunk_refs);
    },
  )
  open_meta (directory name) = fail eisdir
  open_meta (symlink name target) = fail einval

  unfoldable pub open_node : INodeNo → Action Replica FileHandle
  open_node node_ino = ino_to_node_id node_ino >>= λ node_id.
      query (λ fs. FileSystem.metadata crates fs node_id) >>= λ meta. open_meta meta

  unfoldable pub opendir : INodeNo → Action Replica FileHandle
  opendir ino = ino_to_node_id ino >>= λ node_id.
      query (λ fs. FileSystem.metadata crates fs node_id) >>= λ meta.
      if FileSystem.is_directory meta then next_fh else fail enotdir

  -- The loop of `readdir` that numbers the children.
  unfoldable pub number_children :
      List (NodeId × String × NodeMeta) → Action Replica (List (INodeNo × FileType × String))
  number_children [] = reply []
  number_children ((child, name, meta) ∷ children) = node_id_to_ino child >>= λ child_ino.
      number_children children >>= λ rest. reply ((child_ino, file_type_of meta, name) ∷ rest)

  unfoldable pub readdir : (listing : Listing) → INodeNo → ℕ → ℕ → Action Replica (listing.Reply)
  readdir listing node_ino size offset = ino_to_node_id node_ino >>= λ node_id.
      query (λ fs. list_directory crates fs node_id) >>= λ children s.
      (node_id_to_ino (parent_id crates s.filesystem node_id) >>= λ parent_ino.
      number_children children >>= λ entries. reply (
        add_entries listing (listing.empty size) offset (
          drop offset
            ((node_ino, directory_type, ".") ∷ (parent_ino, directory_type, "..") ∷ entries))))
        s

  unfoldable pub readlink : INodeNo → Action Replica Bytes
  readlink ino = ino_to_node_id ino >>= λ node_id.
      query (λ fs. FileSystem.metadata crates fs node_id) >>= λ meta. link_target meta
    where
      link_target : NodeMeta → Action Replica Bytes
      link_target (symlink name target) = reply (utf8 target)
      link_target _ = fail einval

  unfoldable pub create_link : ℕ → INodeNo → String → String → Action Replica FileAttr
  create_link now parent_ino link_name target = ino_to_node_id parent_ino >>= λ parent.
      broadcast (λ fs. create_symlink crates now fs parent link_name target) >>= λ entry.
      entry_reply entry.node_id entry.meta

  unfoldable pub statfs : Action Replica Statfs
  statfs s = (
    ok (record {
      blocks = div_ceil (capacity_bytes crates s.filesystem) fuse_block_size_bytes;
      bfree = free_bytes crates s.filesystem / fuse_block_size_bytes;
      bavail = free_bytes crates s.filesystem / fuse_block_size_bytes;
      files = u64_max;
      ffree = u64_max;
      bsize = fuse_block_size_bytes;
      namelen = fuse_max_name_length;
      frsize = fuse_block_size_bytes;
    }),
    s,
  )
