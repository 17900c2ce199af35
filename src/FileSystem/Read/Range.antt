-- ===== src/FileSystem/Read/Range.antt =====
-- The loop of `read_file` against the contents that its references stand for.
use mathlib.Core.List.{append-nil, append_assoc}
use edfs.Domain.{Bytes, ChunkHash, ChunkRef}
use edfs.Chunking.Contents.{padded, piece, contents, length-piece, IsCovered, total_size}
use edfs.Storage
use edfs.Storage.{ChunkStorage}
use edfs.Storage.Access.{bytes_of, get_lem, get-IsValid}
use edfs.Storage.Accounts.{IsValid}
use edfs.FileSystem.{FileSystemError}
use edfs.FileSystem.Read.{take_part, or_zeros, read_chunks}
use edfs.Prelude.Map
use edfs.Prelude.{
  ℕ, ◌+◌, ◌-◌, ◌≤◌, ◌<◌, ◌≡◌, ◌^◌, refl, sym, ap, ap₂, ok, Result, All, ◌∙◌, ◌≡⟨◌⟩◌, ◌∎, min, ltb,
  leb, leb→le, Bool-cases, inl, inr, Option, none, some, List, [], ◌∷◌, ◌++◌, arith, length, slice,
  slice-append, slice-nil, subst, slice-eq-nil, slice-take, slice-length-min, slice_congr, take,
  if◌then◌else◌,
}

-- What a storage holds under a hash.
abbrev pub held_in : ChunkStorage → ChunkHash → Option Bytes
held_in s h = bytes_of (Map.get h s.chunks)

-- No reference is to more bytes than a vector can hold.
abbrev pub AreAllocatable : List ChunkRef → Type 0
AreAllocatable = All (λ r. r.size < 2 ^ 63)

or_zeros-eq-padded :
    (r : ChunkRef) (held : Option Bytes)
    → r.size < 2 ^ 63
    → or_zeros r held ≡ ok (padded r.size held)
unfolding or_zeros
or_zeros-eq-padded r none small = ground arith
or_zeros-eq-padded r (some content) small = refl

guarded_slice :
    (lo hi : ℕ) (xs : Bytes) → (if ltb lo hi then slice lo hi xs else []) ≡ slice lo hi xs
guarded_slice lo hi xs = elim (Bool-cases (ltb lo hi)) [
  | inl inside ↦ rw inside
  | inr outside ↦ rw outside (sym (slice-eq-nil lo hi xs (ground arith)))
]

-- Within its chunk, the part that is copied is the slice of the piece.
take_part-eq-slice :
    (offset read_end start : ℕ) (r : ChunkRef) (content : Bytes)
    → start < read_end
    → take_part offset read_end start r content
      ≡ slice (offset - start) (min (read_end - start) r.size) (take r.size content)
unfolding take_part
take_part-eq-slice offset read_end start r content h =
    let lo : ℕ = offset - start in
    let hi : ℕ = min (read_end - start) r.size in
    take_part offset read_end start r content
    ≡⟨ guarded_slice lo (min hi (length content)) content ⟩
      slice lo (min hi (length content)) content
    ≡⟨ slice-length-min lo hi content ⟩ slice lo hi content
    ≡⟨ slice_congr {lo = lo} {lo' = lo} {hi = hi} {hi' = min hi r.size} content refl (omega arith) ⟩
      slice lo (min hi r.size) content
    ≡⟨ sym (slice-take lo hi r.size content) ⟩ slice lo hi (take r.size content) ∎

-- The bytes of a storage do not change when it is read.
held_in-get : (s : ChunkStorage) (hash : ChunkHash) → held_in (Storage.get s hash).0 ≡ held_in s
held_in-get s hash = ap (λ t. held_in t) ((get_lem s hash).1)

-- What the loop takes for the chunk of a reference.
got-eq-padded :
    (s : ChunkStorage) (r : ChunkRef)
    → r.size < 2 ^ 63
    → or_zeros r (Storage.get s r.hash).1 ≡ ok (padded r.size (held_in s r.hash))
got-eq-padded s r small =
    or_zeros-eq-padded r _ small ∙ ap (λ held. ok (padded r.size held)) (get_lem s r.hash).0

module _ (offset read_end start : ℕ) (s : ChunkStorage) (output : Bytes) (r : ChunkRef)
    (rs : List ChunkRef) (fits : start + r.size < 2 ^ 64) where
  read_chunks_skip :
      start + r.size ≤ offset
      → read_chunks offset read_end start s output (r ∷ rs)
        ≡ read_chunks offset read_end (start + r.size) s output rs
  unfolding read_chunks
  read_chunks_skip h = ground arith

  read_chunks_stop :
      offset < start + r.size
      → read_end ≤ start
      → read_chunks offset read_end start s output (r ∷ rs) ≡ ok (output, s)
  unfolding read_chunks
  read_chunks_stop h k = ground arith

  read_chunks_copy :
      offset < start + r.size
      → start < read_end
      → r.size < 2 ^ 63
      → read_chunks offset read_end start s output (r ∷ rs)
        ≡ read_chunks offset read_end
            (start + r.size)
            (Storage.get s r.hash).0
            (output ++ take_part offset read_end start r (padded r.size (held_in s r.hash)))
            rs
  unfolding read_chunks
  read_chunks_copy h k small = ground (arith, got-eq-padded s r small)

read_chunks-nil :
    (offset read_end start : ℕ) (s : ChunkStorage) (output : Bytes)
    → read_chunks offset read_end start s output [] ≡ ok (output, s)
unfolding read_chunks
read_chunks-nil offset read_end start s output = refl

-- What the loop returns from a valid storage: a slice of the contents, and a storage that differs
-- in the queue of the cached chunks only.
pub record Copied (s : ChunkStorage) (output : Bytes)
    (result : Result FileSystemError (Bytes × ChunkStorage)) : Type 0 where
  pub after : ChunkStorage
  pub returned : result ≡ ok (output, after)
  pub kept : after.chunks ≡ s.chunks
  pub valid : IsValid after

-- The same, from a storage with the same chunks, and with the output written in another way.
pub Copied-after :
    {s s' : ChunkStorage} {output output' : Bytes}
    {result : Result FileSystemError (Bytes × ChunkStorage)}
    → output' ≡ output
    → s'.chunks ≡ s.chunks
    → Copied s' output' result
    → Copied s output result
Copied-after e same done = record {
  after = done.after;
  returned = done.returned ∙ ap (λ out. ok (out, done.after)) e;
  kept = done.kept ∙ same;
  valid = done.valid;
}

module _ (offset read_end : ℕ) (before : offset < read_end) where
  -- One round of the loop, and the rest.
  pub slice-contents :
      (store : ChunkHash → Option Bytes) (start : ℕ) (r : ChunkRef) (rs : List ChunkRef)
      → IsCovered store (r ∷ rs)
      → slice (offset - start) (read_end - start) (contents store (r ∷ rs))
        ≡ slice (offset - start) (min (read_end - start) r.size) (piece store r)
          ++ slice (offset - (start + r.size)) (read_end - (start + r.size)) (contents store rs)
  slice-contents store start r rs c =
      slice-append (offset - start) (read_end - start) (piece store r) (contents store rs)
        (omega arith)
      ∙ ap₂ ◌++◌
          (slice_congr {lo = offset - start} {lo' = offset - start}
            {hi = min (read_end - start) (length (piece store r))}
            {hi' = min (read_end - start) r.size} (piece store r) refl
            (ap (min (read_end - start)) (length-piece store r c.0)))
          (slice_congr {lo = offset - start - length (piece store r)}
            {lo' = offset - (start + r.size)} {hi = read_end - start - length (piece store r)}
            {hi' = read_end - (start + r.size)} (contents store rs)
            (omega (arith, length-piece store r c.0)) (omega (arith, length-piece store r c.0)))

  pub read_chunks-Copied :
      (start : ℕ) (s : ChunkStorage) (output : Bytes) (rs : List ChunkRef)
      → IsValid s
      → IsCovered (held_in s) rs
      → AreAllocatable rs
      → start + total_size rs < 2 ^ 64
      → Copied s
          (output ++ slice (offset - start) (read_end - start) (contents (held_in s) rs))
          (read_chunks offset read_end start s output rs)
  read_chunks-Copied start s output [] v c a fits =
      rw (read_chunks-nil, slice-nil, append-nil)
        (record { after = s; returned = refl; kept = refl; valid = v })
  read_chunks-Copied start s output (r ∷ rs) v c a fits =
      let lo : ℕ = offset - start in
      let hi : ℕ = read_end - start in
      let later : Bytes =
        slice (offset - (start + r.size)) (read_end - (start + r.size)) (contents (held_in s) rs) in
      let whole = slice-contents (held_in s) start r rs c in
      elim (Bool-cases (leb (start + r.size) offset)) [
        | inl skipped ↦
            rw
              (read_chunks_skip offset read_end start s output r rs (omega arith)
                (leb→le _ _ skipped))
              (Copied-after
                (ap (◌++◌ output) (
                  sym (
                    whole
                    ∙ ap (λ p. p ++ later)
                        (slice-eq-nil lo (min hi r.size) (piece (held_in s) r) (ground arith)))))
                refl (read_chunks-Copied (start + r.size) s output rs v c.1 a.1 (omega arith)))
        | inr reached ↦ elim (Bool-cases (leb read_end start)) [
          | inl beyond ↦
              rw
                (read_chunks_stop offset read_end start s output r rs (omega arith) (ground arith)
                  (leb→le _ _ beyond))
                (record {
                  after = s;
                  returned =
                      ap (λ out. ok (out, s))
                        (sym (append-nil output)
                          ∙ ap (◌++◌ output) (
                              sym (
                                slice-eq-nil lo hi (contents (held_in s) (r ∷ rs))
                                  (ground arith))));
                  kept = refl;
                  valid = v;
                })
          | inr inside ↦
              let s' : ChunkStorage = (Storage.get s r.hash).0 in
              let same : held_in s' ≡ held_in s = held_in-get s r.hash in
              let part : Bytes =
                take_part offset read_end start r (padded r.size (held_in s r.hash)) in
              let rest =
                read_chunks-Copied (start + r.size) s' (output ++ part) rs (get-IsValid s r.hash v)
                  (subst (λ store. IsCovered store rs) (sym same) c.1) a.1 (omega arith) in
              rw
                (read_chunks_copy offset read_end start s output r rs (omega arith) (ground arith)
                  (ground arith) a.0)
                (Copied-after
                  (ap₂
                      (λ p store.
                        (output ++ p)
                        ++ slice (offset - (start + r.size)) (read_end - (start + r.size))
                            (contents store rs))
                      (take_part-eq-slice offset read_end start r _ (ground arith)) same
                    ∙ append_assoc output _ later
                    ∙ ap (◌++◌ output) (sym whole))
                  (ap (λ t. t.chunks) (get_lem s r.hash).1) rest)
        ]
      ]
