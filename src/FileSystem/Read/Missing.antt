-- ===== src/FileSystem/Read/Missing.antt =====
-- `missing_chunk_hashes_for`: what it leaves out is enough for the read.
use edfs.Crates.{Crates}
use edfs.Domain.{Bytes, ChunkHash, ChunkRef, NodeId}
use edfs.Chunking.Contents.{piece, padded, contents, IsCovered, total_size}
use edfs.Storage.{ChunkStorage, contains}
use edfs.Storage.Accounts.{IsValid}
use edfs.FileSystem.{FileSystem}
use edfs.FileSystem.Read.{missing_chunks, missing_chunk_hashes_for, read_file}
use edfs.FileSystem.Read.File.{IsFile, read_file_short}
use edfs.FileSystem.Read.Range.{held_in, slice-contents}
use edfs.Prelude.{
  ℕ, String, ok, ◌+◌, ◌-◌, ◌≤◌, ◌<◌, ◌≡◌, ◌^◌, refl, sym, ap, ap₂, subst, ◌∙◌, min, true, false,
  leb, leb→le, Bool-cases, inl, inr, ◌⊎◌, Option, none, List, [], ◌∷◌, ◌++◌, arith, mem, mem-append,
  slice, slice-eq-nil, slice_congr, saturating_add, take, add_u64,
}

-- Every hash that is reported is one that the storage does not hold.
pub missing_chunks-absent :
    (offset read_end start : ℕ) (s : ChunkStorage) (rs : List ChunkRef) (h : ChunkHash)
    → mem h (missing_chunks offset read_end start s rs) ≡ true
    → contains s h ≡ false
unfolding missing_chunks
missing_chunks-absent offset read_end start s [] h m = cc
missing_chunks-absent offset read_end start s (r ∷ rs) h m =
    let later = missing_chunks-absent offset read_end (add_u64 start r.size) s rs h in
    ground (
      arith,
      later,
      mem-append h (r.hash ∷ []) (missing_chunks offset read_end (add_u64 start r.size) s rs),
    )

module _ (offset read_end : ℕ) (before : offset < read_end) (s : ChunkStorage) where
  -- One round, with nothing reported.
  missing_chunks_round :
      (start : ℕ) (r : ChunkRef) (rs : List ChunkRef)
      → start + r.size < 2 ^ 64
      → missing_chunks offset read_end start s (r ∷ rs) ≡ []
      → ((contains s r.hash ≡ true) ⊎ (min (read_end - start) r.size ≤ offset - start))
        × ((missing_chunks offset read_end (start + r.size) s rs ≡ [])
            ⊎ (read_end ≤ start + r.size))
  unfolding missing_chunks
  missing_chunks_round start r rs fits e = (ground arith, ground arith)

  module _ (store : ChunkHash → Option Bytes)
      (agrees : (h : ChunkHash) → (held_in s h ≡ none) ⊎ (held_in s h ≡ store h)) where
    same_piece : (r : ChunkRef) → contains s r.hash ≡ true → piece (held_in s) r ≡ piece store r
    unfolding contains
    same_piece r h =
        let same : held_in s r.hash ≡ store r.hash = ground (arith, agrees r.hash) in
        ap (λ held. take r.size (padded r.size held)) same

    same_slice :
        (start : ℕ) (r : ChunkRef)
        → (contains s r.hash ≡ true) ⊎ (min (read_end - start) r.size ≤ offset - start)
        → slice (offset - start) (min (read_end - start) r.size) (piece (held_in s) r)
          ≡ slice (offset - start) (min (read_end - start) r.size) (piece store r)
    same_slice start r (inl held) =
        ap (slice (offset - start) (min (read_end - start) r.size)) (same_piece r held)
    same_slice start r (inr outside) =
        slice-eq-nil (offset - start) (min (read_end - start) r.size) (piece (held_in s) r) outside
        ∙ sym
            (slice-eq-nil (offset - start) (min (read_end - start) r.size) (piece store r) outside)

    pub same_contents :
        (start : ℕ) (rs : List ChunkRef)
        → IsCovered (held_in s) rs
        → IsCovered store rs
        → start + total_size rs < 2 ^ 64
        → missing_chunks offset read_end start s rs ≡ []
        → slice (offset - start) (read_end - start) (contents (held_in s) rs)
          ≡ slice (offset - start) (read_end - start) (contents store rs)
    same_contents start [] c d fits e = refl
    same_contents start (r ∷ rs) c d fits e =
        let (here, later) = missing_chunks_round start r rs (omega arith) e in
        let lo : ℕ = offset - (start + r.size) in
        let hi : ℕ = read_end - (start + r.size) in
        let rest : slice lo hi (contents (held_in s) rs) ≡ slice lo hi (contents store rs) =
          elim later [
            | inl none_missing ↦
                same_contents (start + r.size) rs c.1 d.1 (omega arith) none_missing
            | inr beyond ↦
                slice-eq-nil lo hi (contents (held_in s) rs) (omega arith)
                ∙ sym (slice-eq-nil lo hi (contents store rs) (omega arith))
          ] in
        slice-contents offset read_end before (held_in s) start r rs c
        ∙ ap₂ ◌++◌ (same_slice start r here) rest
        ∙ sym (slice-contents offset read_end before store start r rs d)

-- The same for the whole loop, which starts at 0.
same_range :
    (s : ChunkStorage) (store : ChunkHash → Option Bytes) (offset stop : ℕ) (rs : List ChunkRef)
    → ((h : ChunkHash) → (held_in s h ≡ none) ⊎ (held_in s h ≡ store h))
    → IsCovered (held_in s) rs
    → IsCovered store rs
    → total_size rs < 2 ^ 64
    → missing_chunks offset stop 0 s rs ≡ []
    → slice offset stop (contents (held_in s) rs) ≡ slice offset stop (contents store rs)
same_range s store offset stop rs agrees c d fits e =
    let start : (xs : Bytes) → slice (offset - 0) (stop - 0) xs ≡ slice offset stop xs =
      λ xs. slice_congr xs (omega arith) (omega arith) in
    elim (Bool-cases (leb stop offset)) [
      | inl empty ↦
          slice-eq-nil offset stop (contents (held_in s) rs) (leb→le _ _ empty)
          ∙ sym (slice-eq-nil offset stop (contents store rs) (leb→le _ _ empty))
      | inr some_left ↦
          sym (start (contents (held_in s) rs))
          ∙ same_contents offset stop (ground arith) s store agrees 0 rs c d (omega arith) e
          ∙ start (contents store rs)
    ]

module _ (crates : Crates) where
  open crates use {Replica}

  -- If `missing_chunk_hashes_for` reports nothing for a range of a regular file, whose references
  -- are covered by a valid storage, a read of that range returns the
  -- bytes of the file as any complete store has them: each `store` that agrees with what is held
  -- here and covers the file gives the same slice, and no zeros stand in for a missing chunk.
  -- Conditions: the range has less than 2 ^ 63 bytes of the file, each reference is of less than 2 ^ 63,
  -- and their sizes add up to less than 2 ^ 64, as is the size of the file.
  pub read_file_complete :
      (fs : FileSystem Replica) (node_id : NodeId) (offset len : ℕ) {name : String} {size : ℕ}
      {rs : List ChunkRef} (store : ChunkHash → Option Bytes)
      → IsFile crates fs node_id name size rs
      → IsValid fs.storage
      → ((h : ChunkHash) → (held_in fs.storage h ≡ none) ⊎ (held_in fs.storage h ≡ store h))
      → IsCovered store rs
      → min (offset + len) size - offset < 2 ^ 63
      → missing_chunk_hashes_for crates fs node_id offset len ≡ ok []
      → (fs' : FileSystem Replica) × (read_file crates fs node_id offset len
          ≡ ok (slice offset (min (offset + len) size) (contents store rs), fs'))
  unfolding missing_chunk_hashes_for
  read_file_complete fs node_id offset len {name} {size} {rs} store f v agrees d short e =
      let (fs', done, _, _, _) = read_file_short crates fs node_id offset len f v short in
      let stop : ℕ = min (saturating_add offset len) size in
      let nothing : missing_chunks offset stop 0 fs.storage rs ≡ [] = ground (arith, f.meta) in
      let same = same_range fs.storage store offset stop rs agrees f.covered d f.total nothing in
      let whole : stop ≡ min (offset + len) size = omega (arith, f.small) in
      (
        fs',
        done
            ∙ ap (λ out. ok (out, fs'))
                (subst
                  (λ k.
                    slice offset k (contents (held_in fs.storage) rs)
                    ≡ slice offset k (contents store rs))
                  whole same),
      )
