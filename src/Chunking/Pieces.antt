-- ===== src/Chunking/Pieces.antt =====
-- `split` loses nothing: its chunks, in order, make up the file.
use edfs.Domain.{Bytes, ChunkHash, Chunk, new_chunk, reference}
use edfs.Config.{fastcdc_min_chunk_size, fastcdc_avg_chunk_size, fastcdc_max_chunk_size}
use edfs.Chunking.{Cutter, chunks_at, split}
use edfs.Chunking.Contents.{total_size}
use edfs.Prelude.{
  ℕ, ◌+◌, ◌≤◌, ◌≡◌, refl, sym, ap, ◌∙◌, some, List, [], ◌∷◌, ◌++◌, arith, All, length, drop, map,
  length-append, slice, slice-append-drop, drop-eq-nil,
}

-- The ranges follow one another from `start` to `end`.
abbrev pub Tiles : ℕ → List (ℕ × ℕ) → ℕ → Type 0
Tiles start [] end = start ≡ end
Tiles start ((offset, len) ∷ ranges) end = (offset ≡ start) × Tiles (start + len) ranges end

-- What the chunker promises of the data: ranges without a gap or an overlap, from its first to its
-- last byte.
abbrev pub CutsWhole : Cutter → Bytes → Type 0
CutsWhole cutter bytes =
    Tiles 0 (cutter fastcdc_min_chunk_size fastcdc_avg_chunk_size fastcdc_max_chunk_size bytes)
      (length bytes)

abbrev pub joined : List Chunk → Bytes
joined [] = []
joined (c ∷ cs) = c.bytes ++ joined cs

Tiles-le : (start : ℕ) (ranges : List (ℕ × ℕ)) (end : ℕ) → Tiles start ranges end → start ≤ end
Tiles-le start [] end t = omega arith
Tiles-le start ((offset, len) ∷ ranges) end t = omega (arith, Tiles-le (start + len) ranges end t.1)

module _ (digest : Bytes → ChunkHash) where
  -- Every chunk is addressed by the digest of its contents.
  abbrev pub AreAddressed : List Chunk → Type 0
  AreAddressed = All (λ c. c.hash ≡ digest c.bytes)

  chunks_at-cons :
      (bytes : Bytes) (offset len : ℕ) (ranges : List (ℕ × ℕ)) (cs : List Chunk)
      → offset + len ≤ length bytes
      → chunks_at digest bytes ranges ≡ some cs
      → chunks_at digest bytes ((offset, len) ∷ ranges)
        ≡ some (new_chunk digest (slice offset (offset + len) bytes) ∷ cs)
  unfolding chunks_at
  chunks_at-cons bytes offset len ranges cs h e = ground arith

  chunks_at-Tiles :
      (bytes : Bytes) (start : ℕ) (ranges : List (ℕ × ℕ))
      → Tiles start ranges (length bytes)
      → (cs : List Chunk) × (chunks_at digest bytes ranges ≡ some cs)
        × (joined cs ≡ drop start bytes)
        × AreAddressed cs
  unfolding chunks_at
  chunks_at-Tiles bytes start [] t = ([], refl, sym (drop-eq-nil start bytes (omega arith)), tt)
  chunks_at-Tiles bytes start ((offset, len) ∷ ranges) t =
      let (cs, e, join, addressed) = chunks_at-Tiles bytes (start + len) ranges t.1 in
      let part : Bytes = slice offset (offset + len) bytes in
      let inside = Tiles-le (start + len) ranges (length bytes) t.1 in
      (
        new_chunk digest part ∷ cs,
        chunks_at-cons bytes offset len ranges cs (omega arith) e,
        ap (◌++◌ part) (join ∙ ap (λ k. drop (k + len) bytes) (sym t.0))
            ∙ slice-append-drop offset (offset + len) bytes (omega arith)
            ∙ ap (λ k. drop k bytes) t.0,
        (refl, addressed),
      )

  -- Where the chunker gives ranges without a gap or an overlap from the first to the last byte, `split`
  -- does not panic, its chunks joined are the file, and each is addressed by its digest.
  pub split-joined :
      (cutter : Cutter) (bytes : Bytes)
      → CutsWhole cutter bytes
      → (cs : List Chunk) × (split digest cutter bytes ≡ some cs)
        × (joined cs ≡ bytes)
        × AreAddressed cs
  unfolding split
  split-joined cutter bytes t = chunks_at-Tiles bytes 0 _ t

-- The references to some chunks add up to the length of the chunks joined.
pub total_size-reference : (cs : List Chunk) → total_size (map reference cs) ≡ length (joined cs)
total_size-reference [] = refl
total_size-reference (c ∷ cs) =
    omega (arith, total_size-reference cs, length-append c.bytes (joined cs))
