-- ===== src/FileSystem/Chunks.antt =====
-- src/filesystem/mod.rs: the methods that pass a call on to the storage or to the tree.
use edfs.Crates.{Crates, NodeOperation}
use edfs.Domain.{Bytes, ChunkHash, new_chunk}
use edfs.FileSystem.{FileSystem, FileSystemError, from_storage_error}
use edfs.Storage
use edfs.Storage.{ChunkStorage, StorageError}
use edfs.Tree
use edfs.Tree.{NodeOperationId}
use edfs.Prelude.{ℕ, Bool, Option, List, [], ◌∷◌, Result, ok, err, panic}

module _ (crates : Crates) where
  open crates use {Replica, digest}

  abbrev pub capacity_bytes : FileSystem Replica → ℕ
  capacity_bytes fs = fs.storage.max_pinned_bytes

  abbrev pub free_bytes : FileSystem Replica → ℕ
  free_bytes fs = Storage.free_bytes fs.storage

  abbrev pub chunk : FileSystem Replica → ChunkHash → Option Bytes × FileSystem Replica
  chunk fs hash =
      let (storage, held) = Storage.get fs.storage hash in (held, record fs { storage = storage })

  abbrev pub pinned_chunk :
      FileSystem Replica
      → Result StorageError ChunkStorage
      → Result FileSystemError (Unit {0}) × FileSystem Replica
  pinned_chunk fs (ok storage) = (ok tt, record fs { storage = storage })
  pinned_chunk fs (err e) = (err (from_storage_error e), fs)
  pinned_chunk fs panic = (panic, fs)

  abbrev pub pin_chunk :
      FileSystem Replica → Bytes → Result FileSystemError (Unit {0}) × FileSystem Replica
  pin_chunk fs bytes = pinned_chunk fs (Storage.try_pin fs.storage (new_chunk digest bytes ∷ []))

  abbrev pub cache_chunk : FileSystem Replica → Bytes → FileSystem Replica
  cache_chunk fs bytes = record fs { storage = Storage.cache fs.storage (new_chunk digest bytes) }

  abbrev pub is_pinned : FileSystem Replica → ChunkHash → Bool
  is_pinned fs hash = Storage.is_pinned fs.storage hash

  abbrev pub is_cached : FileSystem Replica → ChunkHash → Bool
  is_cached fs hash = Storage.is_cached fs.storage hash

  abbrev pub pinned_hashes : FileSystem Replica → List ChunkHash
  pinned_hashes fs = Storage.pinned_hashes fs.storage

  abbrev pub promote_to_pinned : FileSystem Replica → ChunkHash → Bool × FileSystem Replica
  promote_to_pinned fs hash =
      let (storage, done) = Storage.promote_to_pinned fs.storage hash in
      (done, record fs { storage = storage })

  abbrev pub evict_chunk : FileSystem Replica → ChunkHash → Bool × FileSystem Replica
  evict_chunk fs hash =
      let (storage, done) = Storage.evict fs.storage hash in (done, record fs { storage = storage })

  abbrev pub apply_operations :
      (NodeOperation → ℕ) → FileSystem Replica → List NodeOperation → FileSystem Replica
  apply_operations now fs operations = record fs {
    tree = Tree.apply_operations crates now fs.tree operations;
  }

  abbrev pub operation_ids : FileSystem Replica → List NodeOperationId
  operation_ids fs = Tree.operation_ids crates fs.tree

  abbrev pub operations_missing_from :
      FileSystem Replica → List NodeOperationId → List NodeOperation
  operations_missing_from fs ids = Tree.operations_missing_from crates fs.tree ids
