-- ===== src/FileSystem/Read.antt =====
-- src/filesystem/mod.rs: `read_file`, `read_file_all` and `missing_chunk_hashes_for`. A read moves
-- cached chunks in the queue of the storage, so it returns the new file system too.
pub mod Range
pub mod File
pub mod Missing
use edfs.Crates.{Crates}
use edfs.Domain.{Bytes, ChunkHash, ChunkRef, NodeId, NodeMeta, directory, regular_file, symlink}
use edfs.Storage
use edfs.Storage.{ChunkStorage}
use edfs.FileSystem.{FileSystem, FileSystemError, is_a_directory, metadata, ◌>>=◌}
use edfs.Prelude.{
  ℕ, ◌+◌, ◌-◌, String, min, Bool, true, false, not, ◌&&◌, ltb, leb, Option, none, some, List, [],
  ◌∷◌, ◌++◌, Result, ok, err, panic, length, replicate, slice, if◌then◌else◌, add_u64,
  saturating_add, saturating_sub, capacity_limit,
}

-- The part of a chunk that a read from `offset` to `read_end` takes; the chunk begins at
-- `chunk_start` of the file. The guard keeps the slice within the chunk.
unfoldable pub take_part : ℕ → ℕ → ℕ → ChunkRef → Bytes → Bytes
take_part offset read_end chunk_start chunk_ref content =
    let start_in_chunk : ℕ = saturating_sub offset chunk_start in
    let end_in_chunk : ℕ = min (read_end - chunk_start) chunk_ref.size in
    let available_end : ℕ = min end_in_chunk (length content) in
    if ltb start_in_chunk available_end then slice start_in_chunk available_end content else []

-- `unwrap_or_else`: a chunk that is not held reads as zeros. `vec!` panics where no vector is as long.
unfoldable pub or_zeros : ChunkRef → Option Bytes → Result FileSystemError Bytes
or_zeros chunk_ref none =
    if ltb chunk_ref.size capacity_limit then ok (replicate chunk_ref.size 0) else panic
or_zeros chunk_ref (some content) = ok content

-- The loop of `read_file`. It ends with the output and the storage.
unfoldable pub read_chunks :
    ℕ → ℕ → ℕ → ChunkStorage → Bytes → List ChunkRef → Result FileSystemError (Bytes × ChunkStorage)
read_chunks offset read_end chunk_start storage output [] = ok (output, storage)
read_chunks offset read_end chunk_start storage output (chunk_ref ∷ chunk_refs) =
    let chunk_end : ℕ = add_u64 chunk_start chunk_ref.size in
    let skipped : Result FileSystemError (Bytes × ChunkStorage) =
      read_chunks offset read_end chunk_end storage output chunk_refs in
    let (storage', held) = Storage.get storage chunk_ref.hash in
    let copied : Result FileSystemError (Bytes × ChunkStorage) =
      or_zeros chunk_ref held >>= λ content.
      read_chunks offset read_end chunk_end storage'
        (output ++ take_part offset read_end chunk_start chunk_ref content) chunk_refs in
    if leb chunk_end offset
    then skipped
    else if leb read_end chunk_start
    then ok (output, storage)
    else copied

-- The loop of `missing_chunk_hashes_for`.
unfoldable pub missing_chunks : ℕ → ℕ → ℕ → ChunkStorage → List ChunkRef → List ChunkHash
missing_chunks offset read_end chunk_start storage [] = []
missing_chunks offset read_end chunk_start storage (chunk_ref ∷ chunk_refs) =
    let chunk_end : ℕ = add_u64 chunk_start chunk_ref.size in
    let found : List ChunkHash =
      if ltb chunk_start read_end
        && ltb offset chunk_end
        && not (Storage.contains storage chunk_ref.hash)
      then chunk_ref.hash ∷ []
      else [] in
    let rest = missing_chunks offset read_end chunk_end storage chunk_refs in
    if leb read_end chunk_end then found else found ++ rest

-- `let NodeMeta::RegularFile { .. } = .. else`: the name, the size and the references.
abbrev pub as_file : NodeMeta → Result FileSystemError (String × ℕ × List ChunkRef)
as_file (regular_file name size chunk_refs) = ok (name, size, chunk_refs)
as_file _ = err is_a_directory

-- `read_file` behind its pattern match. `Vec::with_capacity` panics where no vector is as long.
unfoldable pub read_range :
    ChunkStorage → ℕ → ℕ → ℕ → List ChunkRef → Result FileSystemError (Bytes × ChunkStorage)
read_range storage size offset len chunk_refs =
    let read_end : ℕ = min (saturating_add offset len) size in
    if leb read_end offset
    then ok ([], storage)
    else if leb capacity_limit (read_end - offset)
    then panic
    else read_chunks offset read_end 0 storage [] chunk_refs

module _ (crates : Crates) where
  open crates use {Replica}

  unfoldable pub read_file :
      FileSystem Replica → NodeId → ℕ → ℕ → Result FileSystemError (Bytes × FileSystem Replica)
  read_file fs node_id offset len = do
    meta ← metadata crates fs node_id
    (name, size, chunk_refs) ← as_file meta
    (output, storage) ← read_range fs.storage size offset len chunk_refs
    ok (output, record fs { storage = storage })

  unfoldable pub read_file_all :
      FileSystem Replica → NodeId → Result FileSystemError (Bytes × FileSystem Replica)
  read_file_all fs node_id = do
    meta ← metadata crates fs node_id
    (name, size, chunk_refs) ← as_file meta
    read_file fs node_id 0 size

  unfoldable pub missing_chunk_hashes_for :
      FileSystem Replica → NodeId → ℕ → ℕ → Result FileSystemError (List ChunkHash)
  missing_chunk_hashes_for fs node_id offset len = do
    meta ← metadata crates fs node_id
    (name, size, chunk_refs) ← as_file meta
    ok (missing_chunks offset (min (saturating_add offset len) size) 0 fs.storage chunk_refs)
