-- ===== src/Fuse/Transfer.antt =====
-- src/fuse/mod.rs: `read`, `write` and `release`, which move the contents of files.
use edfs.Crates.{Crates}
use edfs.Domain.{Bytes, ChunkHash}
use edfs.FileSystem.{metadata}
use edfs.FileSystem.Mutate.{write_file}
use edfs.FileSystem.Read.{read_file, read_file_all}
use edfs.Fuse.Actions.{
  FuseFileSystem, Action, ◌>>=◌, reply, fail, reading, ino_to_node_id, broadcast,
  fetch_missing_chunks,
}
use edfs.Fuse.Errno.{Errno, eio}
use edfs.Fuse.Inode.{INodeNo}
use edfs.Fuse.OpenFile
use edfs.Fuse.OpenFile.{FileHandle}
use edfs.Prelude.{
  ℕ, ◌%◌, ◌^◌, Bool, true, false, not, Option, none, some, [], ◌∷◌, Result, ok, err, panic,
  if◌then◌else◌, u64_max,
}

abbrev pub is_err {ℓ κ} : {E : Type ℓ} {A : Type κ} → Result E A → Bool
is_err (ok a) = false
is_err (err e) = true
is_err panic = false

module _ (crates : Crates) (fetch : ChunkHash → Option Bytes) where
  open crates use {Replica}

  -- `read` of a file that has no buffer.
  unfoldable pub read_stored : INodeNo → ℕ → ℕ → Action Replica Bytes
  read_stored node_ino offset size = ino_to_node_id node_ino >>= λ node_id.
      fetch_missing_chunks crates fetch node_id offset size >>= λ all_fetched.
      if not all_fetched then fail eio else reading (λ fs. read_file crates fs node_id offset size)

  unfoldable pub read : INodeNo → FileHandle → ℕ → ℕ → Action Replica Bytes
  read node_ino fh offset size s = elim (OpenFile.read s.open_files fh offset size) [
    | some content ↦ (ok content, s)
    | none ↦ read_stored node_ino offset size s
  ]

  -- The buffer of a file that has none, in `write`.
  unfoldable pub fill_buffer : INodeNo → FileHandle → Action Replica Unit
  fill_buffer node_ino fh = ino_to_node_id node_ino >>= λ node.
      fetch_missing_chunks crates fetch node 0 u64_max >>= λ all_fetched.
      if not all_fetched
      then fail eio
      else reading (λ fs. read_file_all crates fs node) >>= λ buffer s.
          (ok tt, record s { open_files = OpenFile.set_buffer s.open_files fh buffer })

  -- `written as u32`.
  abbrev pub written :
      FuseFileSystem Replica
      → Result Errno ℕ × OpenFile.OpenFileManager
      → Result Errno ℕ × FuseFileSystem Replica
  written s (ok n, open_files) = (ok (n % 2 ^ 32), record s { open_files = open_files })
  written s (err e, open_files) = (err e, record s { open_files = open_files })
  written s (panic, open_files) = (panic, record s { open_files = open_files })

  unfoldable pub write : INodeNo → FileHandle → ℕ → Bytes → Action Replica ℕ
  write node_ino fh offset [] = reply 0
  write node_ino fh offset (b ∷ bytes) =
      (λ s. (OpenFile.needs_buffer s.open_files fh, s)) >>= λ needed.
      (if needed then fill_buffer node_ino fh else reply tt) >>= λ done s.
      written s (OpenFile.write s.open_files fh offset (b ∷ bytes))

  -- `release` once the buffer is taken out.
  unfoldable pub flush : ℕ → INodeNo → Option Bytes → Action Replica Unit
  flush now node_ino none = reply tt
  flush now node_ino (some buffer) = ino_to_node_id node_ino >>= λ node s.
      if is_err (metadata crates s.filesystem node)
      then (ok tt, s)
      else broadcast (λ fs. write_file crates now fs node buffer) s

  unfoldable pub release : ℕ → INodeNo → FileHandle → Action Replica Unit
  release now node_ino fh s =
      let (buffer, open_files) = OpenFile.release_file s.open_files fh in
      flush now node_ino buffer (record s { open_files = open_files })
