-- ===== src/Fuse/Actions.antt =====
-- src/fuse/gateway.rs and the helpers of src/fuse/mod.rs: what the handlers are built of. A handler
-- is a function of the whole state; the calls that it makes under the locks follow one another.
use edfs.Crates.{Crates, NodeOperation}
use edfs.Domain.{Bytes, ChunkHash, NodeId}
use edfs.Fuse.Errno.{Errno, errno, enoent}
use edfs.Fuse.Inode
use edfs.Fuse.Inode.{INodeNo, INodeMap, get_or_assign_ino, get_node_id}
use edfs.Fuse.OpenFile
use edfs.Fuse.OpenFile.{FileHandle, OpenFileManager}
use edfs.FileSystem.{FileSystem, FileSystemError}
use edfs.FileSystem.Chunks.{cache_chunk}
use edfs.FileSystem.Read.{missing_chunk_hashes_for}
use edfs.FileSystem.Mutate.{TreeMutation}
use edfs.Prelude.{
  ℕ, Bool, true, false, Option, none, some, List, [], ◌∷◌, ◌++◌, map, Result, ok, err, panic,
  add_u64,
}

-- `sent` lists what `broadcast` has given to the gateway, oldest first.
pub record FuseFileSystem (Replica : Type 0) : Type 0 where
  pub filesystem : FileSystem Replica
  pub inode_map : INodeMap
  pub open_files : OpenFileManager
  pub next_fh : ℕ
  pub sent : List (List NodeOperation)

abbrev pub to_errno {ℓ} : {A : Type ℓ} → Result FileSystemError A → Result Errno A
to_errno (ok a) = ok a
to_errno (err e) = err (errno e)
to_errno panic = panic

abbrev pub errno_or {ℓ} : {A : Type ℓ} → Errno → Option A → Result Errno A
errno_or e none = err e
errno_or e (some a) = ok a

module _ (Replica : Type 0) where
  unfoldable pub new : FileSystem Replica → INodeNo → FuseFileSystem Replica
  new filesystem ino_root = record {
    filesystem = filesystem;
    inode_map = Inode.new ino_root;
    open_files = OpenFile.new;
    next_fh = 1;
    sent = [];
  }

abbrev pub Action : Type 0 → Type 0 → Type 0
Action Replica A = FuseFileSystem Replica → Result Errno A × FuseFileSystem Replica

module _ {Replica : Type 0} where
  abbrev pub continue_with :
      {A B : Type 0}
      → Result Errno A × FuseFileSystem Replica
      → (A → Action Replica B)
      → Result Errno B × FuseFileSystem Replica
  continue_with (ok a, s) next = next a s
  continue_with (err e, s) next = (err e, s)
  continue_with (panic, s) next = (panic, s)

  -- The operator `?`.
  infixl 5 ◌>>=◌
  abbrev pub ◌>>=◌ : {A B : Type 0} → Action Replica A → (A → Action Replica B) → Action Replica B
  (action >>= next) s = continue_with (action s) next

  abbrev pub reply : {A : Type 0} → A → Action Replica A
  reply a s = (ok a, s)

  abbrev pub fail : {A : Type 0} → Errno → Action Replica A
  fail e s = (err e, s)

  -- A query of the file system, under its lock.
  abbrev pub query :
      {A : Type 0} → (FileSystem Replica → Result FileSystemError A) → Action Replica A
  query f s = (to_errno (f s.filesystem), s)

  -- A query that reads chunks, and so moves cached ones in their queue.
  abbrev pub read_after :
      {A : Type 0}
      → FuseFileSystem Replica
      → Result FileSystemError (A × FileSystem Replica)
      → Result Errno A × FuseFileSystem Replica
  read_after s (ok (a, fs)) = (ok a, record s { filesystem = fs })
  read_after s (err e) = (err (errno e), s)
  read_after s panic = (panic, s)

  abbrev pub reading :
      {A : Type 0}
      → (FileSystem Replica → Result FileSystemError (A × FileSystem Replica))
      → Action Replica A
  reading f s = read_after s (f s.filesystem)

  unfoldable pub next_fh : Action Replica FileHandle
  next_fh s = (ok s.next_fh, record s { next_fh = add_u64 s.next_fh 1 })

  unfoldable pub ino_to_node_id : INodeNo → Action Replica NodeId
  ino_to_node_id ino s = (errno_or enoent (get_node_id s.inode_map ino), s)

  unfoldable pub node_id_to_ino : NodeId → Action Replica INodeNo
  node_id_to_ino node s =
      let (ino, inode_map) = get_or_assign_ino s.inode_map node in
      (ok ino, record s { inode_map = inode_map })

  abbrev pub sent_after :
      {A : Type 0}
      → FuseFileSystem Replica
      → Result FileSystemError (TreeMutation A) × FileSystem Replica
      → Result Errno A × FuseFileSystem Replica
  sent_after s (ok changes, fs) =
      (ok changes.result, record s { filesystem = fs; sent = s.sent ++ changes.operations ∷ [] })
  sent_after s (err e, fs) = (err (errno e), record s { filesystem = fs })
  sent_after s (panic, fs) = (panic, record s { filesystem = fs })

  unfoldable pub broadcast :
      {A : Type 0}
      → (FileSystem Replica → Result FileSystemError (TreeMutation A) × FileSystem Replica)
      → Action Replica A
  broadcast mutation s = sent_after s (mutation s.filesystem)

module _ (crates : Crates) (fetch : ChunkHash → Option Bytes) where
  open crates use {Replica}

  -- The loop of `fetch_missing_chunks`, with `all_fetched` as its result.
  unfoldable pub cache_all : FileSystem Replica → List (Option Bytes) → Bool × FileSystem Replica
  cache_all fs [] = (true, fs)
  cache_all fs (some content ∷ fetched) = cache_all (cache_chunk crates fs content) fetched
  cache_all fs (none ∷ fetched) = let (all_fetched, fs') = cache_all fs fetched in (false, fs')

  -- `fetch` is the gateway's answer to each request of this call.
  unfoldable pub fetch_missing_chunks : NodeId → ℕ → ℕ → Action Replica Bool
  fetch_missing_chunks node_id offset len =
      query (λ fs. missing_chunk_hashes_for crates fs node_id offset len) >>= λ missing_hashes s.
      let (all_fetched, fs) = cache_all s.filesystem (map fetch missing_hashes) in
      (ok all_fetched, record s { filesystem = fs })
