-- ===== src/Chunking.antt =====
-- src/filesystem/chunk.rs: `split` cuts a file into chunks, `truncate` cuts a list of references.
pub mod Contents
pub mod Pieces
use edfs.Config.{fastcdc_min_chunk_size, fastcdc_avg_chunk_size, fastcdc_max_chunk_size}
use edfs.Domain.{Bytes, ChunkHash, Chunk, ChunkRef, new_chunk}
use mathlib.Core.Option
use edfs.Prelude.{
  ℕ, ◌+◌, ◌-◌, Option, none, some, List, [], ◌∷◌, slice, length, leb, ◌==◌, if◌then◌else◌,
}

-- The chunker of the crate `fastcdc`: from the minimal, the average and the maximal chunk size and
-- the bytes, the offset and the length of each chunk.
abbrev pub Cutter : Type 0
Cutter = ℕ → ℕ → ℕ → Bytes → List (ℕ × ℕ)

-- `&bytes[offset..offset + length]`, which panics (`none`) out of range.
unfoldable pub range : ℕ → ℕ → Bytes → Option Bytes
range offset len bytes =
    if leb (offset + len) (length bytes) then some (slice offset (offset + len) bytes) else none

module _ (digest : Bytes → ChunkHash) where
  -- The closure of `map`, over the chunker's ranges.
  unfoldable pub chunks_at : Bytes → List (ℕ × ℕ) → Option (List Chunk)
  unfolding range
  chunks_at bytes [] = some []
  chunks_at bytes ((offset, len) ∷ ranges) =
      let rest = chunks_at bytes ranges in
      elim (range offset len bytes) [
        | none ↦ none
        | some part ↦ Option.map (λ chunks. new_chunk digest part ∷ chunks) rest
      ]

  unfoldable pub split : Cutter → Bytes → Option (List Chunk)
  split cutter bytes =
      chunks_at bytes
        (cutter fastcdc_min_chunk_size fastcdc_avg_chunk_size fastcdc_max_chunk_size bytes)

-- The loop of `truncate`; `remaining` starts as `new_size`.
unfoldable pub truncate : List ChunkRef → ℕ → List ChunkRef
truncate [] remaining = []
truncate (chunk_ref ∷ chunk_refs) remaining =
    let rest = truncate chunk_refs (remaining - chunk_ref.size) in
    if remaining == 0
    then []
    else if leb chunk_ref.size remaining
    then chunk_ref ∷ rest
    else record { hash = chunk_ref.hash; size = remaining } ∷ []
