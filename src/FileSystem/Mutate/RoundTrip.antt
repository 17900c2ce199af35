-- ===== src/FileSystem/Mutate/RoundTrip.antt =====
-- `write_file`, then `read_file_all`; `truncate_file`, then `read_file`.
use edfs.Crates.{Crates, TreeLaws}
use edfs.Chunking.{split}
use edfs.Chunking.Contents.{contents, total_size}
use edfs.Chunking.Pieces.{CutsWhole, AreAddressed, joined, split-joined, total_size-reference}
use edfs.Domain.{Bytes, Chunk, ChunkRef, NodeId, regular_file, reference}
use edfs.Storage.{StorageError.storage_full as storage_full_error, ChunkStorage, try_pin}
use edfs.Storage.Accounts.{IsValid}
use edfs.Storage.History.{IsSound, try_pin-ok}
use edfs.Storage.Pinning.Loops.{AllPinned, try_pin-AllPinned}
use edfs.Tree.Moves.{IsReady}
use edfs.FileSystem.{FileSystem, FileSystemError.storage_full, metadata}
use edfs.FileSystem.Nodes.{Stands, metadata-Stands, Stands-metadata, root-ne-file}
use edfs.FileSystem.Read.{read_file, read_file_all}
use edfs.FileSystem.Read.Range.{held_in, AreAllocatable}
use edfs.FileSystem.Read.File.{IsFile, read_file_short}
use edfs.FileSystem.Mutate.{TreeMutation, write_file, write_chunks}
use edfs.FileSystem.Mutate.Update.{update_meta-Stands}
use edfs.FileSystem.Mutate.Write.{NoCollision, held-AllPinned, contents-reference}
use edfs.Prelude.{
  ℕ, ◌+◌, ◌-◌, ◌<◌, ◌^◌, ◌≡◌, ◌⊎◌, inl, inr, refl, sym, ap, subst, ◌∙◌, min, String, some, List, [],
  ◌∷◌, map, All, length, slice, take-eq_self, ok, err, arith, Bool-cases, ltb,
}

-- Where the sizes add up to less than a vector can hold, so is each.
allocatable-reference :
    (cs : List Chunk) → total_size (map reference cs) < 2 ^ 63 → AreAllocatable (map reference cs)
allocatable-reference [] h = tt
allocatable-reference (c ∷ cs) h = (omega arith, allocatable-reference cs (omega arith))

module _ (crates : Crates) where
  open crates use {Replica, digest, cutter}

  -- A file that covers its size is read back whole.
  pub read_file_all-eq :
      (fs : FileSystem Replica) (node_id : NodeId) {name : String} {size : ℕ} {rs : List ChunkRef}
      → metadata crates fs node_id ≡ ok (regular_file name size rs)
      → read_file_all crates fs node_id ≡ read_file crates fs node_id 0 size
  unfolding read_file_all
  read_file_all-eq fs node_id e = rw (e, read_file_all)

  write_file-eq :
      (now : ℕ) (fs : FileSystem Replica) (node_id : NodeId) (bytes : Bytes) {name : String}
      {size : ℕ} {rs : List ChunkRef} {cs : List Chunk}
      → metadata crates fs node_id ≡ ok (regular_file name size rs)
      → split digest cutter bytes ≡ some cs
      → write_file crates now fs node_id bytes
        ≡ write_chunks crates now fs node_id name (length bytes) cs (try_pin fs.storage cs)
  unfolding write_file
  write_file-eq now fs node_id bytes e s = rw (e, s)

  write_chunks_full :
      (now : ℕ) (fs : FileSystem Replica) (node_id : NodeId) (name : String) (size : ℕ)
      (cs : List Chunk)
      → write_chunks crates now fs node_id name size cs (err storage_full_error)
        ≡ (err storage_full, fs)
  unfolding write_chunks
  write_chunks_full now fs node_id name size cs = refl

  module _ (laws : TreeLaws crates) (now : ℕ) (fs : FileSystem Replica) (node_id : NodeId)
      (bytes : Bytes) {name : String} {size : ℕ} {rs : List ChunkRef} {cs : List Chunk}
      (ready : IsReady crates now fs.tree) (sound : IsSound digest fs.storage)
      (is_file : metadata crates fs node_id ≡ ok (regular_file name size rs))
      (whole : CutsWhole cutter bytes) (pieces : split digest cutter bytes ≡ some cs)
      (apart : NoCollision digest fs.storage cs) (small : length bytes < 2 ^ 63) where
    cut : (joined cs ≡ bytes) × AreAddressed digest cs
    cut =
        let (cs', e, join, addressed) = split-joined digest cutter bytes whole in
        let same : cs' ≡ cs = ground arith in
        subst (λ l. (joined l ≡ bytes) × AreAddressed digest l) same (join, addressed)

    -- The file in a file system whose storage is `r`, with the new metadata.
    written_IsFile :
        (r : ChunkStorage) (fs' : FileSystem Replica) (p : NodeId)
        → AllPinned fs.storage cs r
        → fs'.storage ≡ r
        → Stands crates fs' node_id p (regular_file name (length bytes) (map reference cs))
        → IsFile crates fs' node_id name (length bytes) (map reference cs)
          × (contents (held_in fs'.storage) (map reference cs) ≡ bytes)
    written_IsFile r fs' p all e stands =
        let total : total_size (map reference cs) ≡ length bytes =
          total_size-reference cs ∙ ap length cut.0 in
        let held = held-AllPinned digest fs.storage r cs sound.addressed all apart cut.1 in
        let (whole', covered) =
          contents-reference fs'.storage cs
            (subst (λ s. All (λ c. held_in s c.hash ≡ some c.bytes) cs) (sym e) held) in
        (
          record {
            meta = metadata-Stands crates fs' node_id p _ stands;
            covered = covered;
            allocatable = allocatable-reference cs (omega (arith, total));
            total = omega (arith, total);
            small = omega arith;
          },
          whole' ∙ cut.0,
        )

    -- Such a file is read back.
    reads_back :
        (fs' : FileSystem Replica)
        → IsValid fs'.storage
        → IsFile crates fs' node_id name (length bytes) (map reference cs)
        → contents (held_in fs'.storage) (map reference cs) ≡ bytes
        → (fs'' : FileSystem Replica) × (read_file_all crates fs' node_id ≡ ok (bytes, fs''))
    reads_back fs' v f e =
        let (fs'', done, _, _, _) =
          read_file_short crates fs' node_id 0 (length bytes) f v (omega arith) in
        let all : slice 0 (min (0 + length bytes) (length bytes))
              (contents (held_in fs'.storage) (map reference cs))
            ≡ bytes =
          ap (slice 0 (min (0 + length bytes) (length bytes))) e
          ∙ take-eq_self (min (0 + length bytes) (length bytes) - 0) bytes (omega arith) in
        (fs'', read_file_all-eq fs' node_id f.meta ∙ done ∙ ap (λ b. ok (b, fs'')) all)

    write_chunks_reads_back :
        (r : ChunkStorage)
        → try_pin fs.storage cs ≡ ok r
        → (m : TreeMutation Unit) × (fs' : FileSystem Replica) × (write_chunks crates now fs node_id
              name
              (length bytes)
              cs
              (ok r)
            ≡ (ok m, fs'))
          × (fs'' : FileSystem Replica) × (read_file_all crates fs' node_id ≡ ok (bytes, fs''))
    unfolding write_chunks
    write_chunks_reads_back r pinned =
        let (valid, all) = try_pin-ok fs.storage cs sound.valid pinned in
        let (p, stands) =
          Stands-metadata crates fs node_id _ (root-ne-file crates fs node_id is_file) is_file in
        let (m, fs', done, stands', kept, _) =
          update_meta-Stands crates laws now (record fs { storage = r }) ready node_id p _
            (regular_file name (length bytes) (map reference cs)) stands in
        let (f, e) = written_IsFile r fs' p all kept stands' in
        let (fs'', back) = reads_back fs' (subst IsValid (sym kept) valid) f e in
        (m, fs', done, fs'', back)

    -- Writing a file either fails with `storage_full` and changes nothing, or succeeds, and then
    -- reading the whole file returns exactly the bytes written. Conditions: the node is a regular
    -- file, the clock is ahead of the log and has room, the tree has no cycle, the storage is sound,
    -- the chunker's ranges follow one another from the first byte to the last, and the byte strings
    -- that meet here have different digests where they differ, and the bytes are fewer than 2 ^ 63.
    pub write_file-read_file_all :
        (write_file crates now fs node_id bytes ≡ (err storage_full, fs))
        ⊎ ((m : TreeMutation Unit) × (fs' : FileSystem Replica) × (write_file crates now fs node_id
                bytes
              ≡ (ok m, fs'))
            × (fs'' : FileSystem Replica) × (read_file_all crates fs' node_id ≡ ok (bytes, fs'')))
    write_file-read_file_all =
        let start = write_file-eq now fs node_id bytes is_file pieces in
        let (r, all, e) = try_pin-AllPinned fs.storage cs sound.valid in
        elim (Bool-cases (ltb fs.storage.max_pinned_bytes r.pinned_bytes)) [
          | inl over ↦
              let full : try_pin fs.storage cs ≡ err storage_full_error = ground arith in
              inl (
                start
                ∙ ap (write_chunks crates now fs node_id name (length bytes) cs) full
                ∙ write_chunks_full now fs node_id name (length bytes) cs)
          | inr fits ↦
              let pinned : try_pin fs.storage cs ≡ ok r = ground arith in
              let (m, fs', done, fs'', back) = write_chunks_reads_back r pinned in
              inr (
                m,
                fs',
                start
                    ∙ ap (write_chunks crates now fs node_id name (length bytes) cs) pinned
                    ∙ done,
                fs'',
                back,
              )
        ]
