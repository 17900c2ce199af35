-- ===== src/FileSystem/Read/File.antt =====
-- `read_file` and `read_file_all`, as queries of a file's contents.
use edfs.Crates.{Crates}
use edfs.Domain.{ChunkRef, NodeId, regular_file}
use edfs.Chunking.Contents.{contents, IsCovered, total_size}
use edfs.Storage.{ChunkStorage}
use edfs.Storage.Accounts.{IsValid}
use edfs.FileSystem.{FileSystem, metadata, ◌>>=◌}
use edfs.FileSystem.Read.{read_chunks, read_range, read_file}
use edfs.FileSystem.Read.Range.{held_in, AreAllocatable, Copied, Copied-after, read_chunks-Copied}
use edfs.Prelude.{
  ℕ, ◌+◌, ◌-◌, ◌<◌, ◌≤◌, ◌≡◌, ◌⊎◌, panic, ap, ltb, ◌^◌, refl, sym, ◌∙◌, String, min, true, false,
  leb, Bool-cases, inl, inr, List, [], arith, slice, slice-eq-nil, slice_congr, saturating_add, ok,
}

module _ (s : ChunkStorage) (size offset len : ℕ) (rs : List ChunkRef) where
  abbrev stop : ℕ
  stop = min (saturating_add offset len) size

  read_range_empty : leb stop offset ≡ true → read_range s size offset len rs ≡ ok ([], s)
  unfolding read_range
  read_range_empty h = rw h

  read_range_loop :
      leb stop offset ≡ false
      → stop - offset < 2 ^ 63
      → read_range s size offset len rs ≡ read_chunks offset stop 0 s [] rs
  unfolding read_range
  read_range_loop h k = ground arith

  read_range_large : 2 ^ 63 ≤ stop - offset → read_range s size offset len rs ≡ panic
  unfolding read_range
  read_range_large h = ground arith

  read_range-Copied :
      IsValid s
      → IsCovered (held_in s) rs
      → AreAllocatable rs
      → total_size rs < 2 ^ 64
      → size < 2 ^ 64
      → min (offset + len) size - offset < 2 ^ 63
      → Copied s
          (slice offset (min (offset + len) size) (contents (held_in s) rs))
          (read_range s size offset len rs)
  read_range-Copied v c a fits small short =
      let end_ : stop ≡ min (offset + len) size = omega arith in
      elim (Bool-cases (leb stop offset)) [
        | inl empty ↦ rw (read_range_empty empty) (record {
          after = s;
          returned =
              ap (λ out. ok (out, s))
                (sym (
                  slice-eq-nil offset (min (offset + len) size) (contents (held_in s) rs)
                    (ground arith)));
          kept = refl;
          valid = v;
        })
        | inr some_left ↦ rw (read_range_loop some_left (omega arith)) (
            Copied-after
              (slice_congr {lo = offset - 0} {lo' = offset} {hi = stop - 0}
                {hi' = min (offset + len) size} (contents (held_in s) rs) (omega arith)
                (omega arith))
              refl (read_chunks-Copied offset stop (ground arith) 0 s [] rs v c a (omega arith)))
      ]

module _ (crates : Crates) where
  open crates use {Replica}

  -- What the reads of `node_id` work with: a regular file, with references that are covered by what
  -- the storage holds, whose sizes add up within 64 bits, none of them larger than a vector can be.
  pub record IsFile (fs : FileSystem Replica) (node_id : NodeId) (name : String) (size : ℕ)
      (rs : List ChunkRef) : Type 0 where
    pub meta : metadata crates fs node_id ≡ ok (regular_file name size rs)
    pub covered : IsCovered (held_in fs.storage) rs
    pub allocatable : AreAllocatable rs
    pub total : total_size rs < 2 ^ 64
    pub small : size < 2 ^ 64

  read_file_range :
      (fs : FileSystem Replica) (node_id : NodeId) (offset len : ℕ) {name : String} {size : ℕ}
      {rs : List ChunkRef}
      → metadata crates fs node_id ≡ ok (regular_file name size rs)
      → read_file crates fs node_id offset len ≡ (
          read_range fs.storage size offset len rs >>= λ out.
          ok (out.0, record fs { storage = out.1 }))
  unfolding read_file
  read_file_range fs node_id offset len e = rw (e, read_file) refl

  -- A read of fewer bytes than a vector can hold.
  pub read_file_short :
      (fs : FileSystem Replica) (node_id : NodeId) (offset len : ℕ) {name : String} {size : ℕ}
      {rs : List ChunkRef}
      → IsFile fs node_id name size rs
      → IsValid fs.storage
      → min (offset + len) size - offset < 2 ^ 63
      → (fs' : FileSystem Replica) × (read_file crates fs node_id offset len
          ≡ ok (slice offset (min (offset + len) size) (contents (held_in fs.storage) rs), fs'))
        × (fs'.tree ≡ fs.tree)
        × (fs'.storage.chunks ≡ fs.storage.chunks)
        × IsValid fs'.storage
  read_file_short fs node_id offset len {name} {size} {rs} f v short =
      let out =
        read_range-Copied fs.storage size offset len rs v f.covered f.allocatable f.total f.small
          short in
      (
        record fs { storage = out.after },
        read_file_range fs node_id offset len f.meta
            ∙ ap (λ result. result >>= λ out. ok (out.0, record fs { storage = out.1 }))
                out.returned,
        refl,
        out.kept,
        out.valid,
      )

  -- A read of 2 ^ 63 bytes or more.
  pub read_file_long :
      (fs : FileSystem Replica) (node_id : NodeId) (offset len : ℕ) {name : String} {size : ℕ}
      {rs : List ChunkRef}
      → IsFile fs node_id name size rs
      → 2 ^ 63 ≤ min (offset + len) size - offset
      → read_file crates fs node_id offset len ≡ panic
  read_file_long fs node_id offset len {name} {size} {rs} f long =
      read_file_range fs node_id offset len f.meta
      ∙ ap (λ result. result >>= λ out. ok (out.0, record fs { storage = out.1 }))
          (read_range_large fs.storage size offset len rs (omega (arith, f.small)))

  -- A read of a regular file, from a valid storage, either asks for 2 ^ 63 bytes of it or more and
  -- panics, or asks for fewer and returns the bytes from `offset` to `offset + len`, or to the size of
  -- the file if that comes first, of the contents that its references stand for; then it changes
  -- neither the tree nor any chunk, and the storage stays valid. Conditions: the references are
  -- covered by the storage, each is of less than 2 ^ 63 bytes, and their sizes add up to less than 2 ^ 64, as is
  -- the size of the file.
  pub read_file-eq-slice :
      (fs : FileSystem Replica) (node_id : NodeId) (offset len : ℕ) {name : String} {size : ℕ}
      {rs : List ChunkRef}
      → IsFile fs node_id name size rs
      → IsValid fs.storage
      → ((2 ^ 63 ≤ min (offset + len) size - offset)
          × (read_file crates fs node_id offset len ≡ panic))
        ⊎ ((min (offset + len) size - offset < 2 ^ 63)
            × (fs' : FileSystem Replica) × (read_file crates fs node_id offset len
                ≡ ok (
                  slice offset (min (offset + len) size) (contents (held_in fs.storage) rs),
                  fs',
                ))
            × (fs'.tree ≡ fs.tree)
            × (fs'.storage.chunks ≡ fs.storage.chunks)
            × IsValid fs'.storage)
  read_file-eq-slice fs node_id offset len {size = size} f v =
      elim (Bool-cases (ltb (min (offset + len) size - offset) (2 ^ 63))) [
        | inl short ↦
            let few : min (offset + len) size - offset < 2 ^ 63 = ground arith in
            let (fs', done, same, kept, valid) = read_file_short fs node_id offset len f v few in
            inr (few, fs', done, same, kept, valid)
        | inr long ↦
            let many : 2 ^ 63 ≤ min (offset + len) size - offset = ground arith in
            inl (many, read_file_long fs node_id offset len f many)
      ]
