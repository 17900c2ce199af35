-- ===== src/Storage/Pinning.antt =====
-- `try_pin`: what its first loop collects.
pub mod Rounds
pub mod Loops
use mathlib.Core.List.{append-nil, append_assoc}
use edfs.Domain.{Bytes, ChunkHash, Chunk}
use edfs.Prelude.Map
use edfs.Prelude.Map.{is_some}
use edfs.Prelude.{
  ℕ, zero, suc, ◌+◌, ◌-◌, ◌≤◌, ◌<◌, ◌≡◌, refl, sym, ap, ◌∙◌, subst, Bool, true, false, not, ◌||◌,
  Option, none, some, List, [], ◌∷◌, ◌++◌, foldl, arith, length, mem, count, count-nil, count-cons,
  count-push, count-retain_ne, mem-append, if◌then◌else◌, ◌==◌, ltb, Bool-cases, Option-cases, inl,
  inr,
}
use edfs.Storage.{ChunkEntry, ChunkStorage, Scan, start_scan, note_chunk, scan_chunk}
use edfs.Storage.Accounts.{cached_flag}

abbrev pub hashes : List Chunk → List ChunkHash
hashes [] = []
hashes (c ∷ cs) = c.hash ∷ hashes cs

-- The contents of the first chunk with a hash.
abbrev pub first_with : ChunkHash → List Chunk → Option Bytes
first_with h [] = none
first_with h (c ∷ cs) = if h == c.hash then some c.bytes else first_with h cs

abbrev pub held_flag : Option ChunkEntry → ℕ
held_flag none = 0
held_flag (some entry) = 1

abbrev pub size_of : Option ChunkEntry → ℕ
size_of none = 0
size_of (some entry) = length entry.bytes

abbrev pub new_size : List Chunk → ℕ
new_size [] = 0
new_size (c ∷ cs) = length c.bytes + new_size cs

abbrev pub held_size : ChunkStorage → List ChunkHash → ℕ
held_size s [] = 0
held_size s (h ∷ hs) = size_of (Map.get h s.chunks) + held_size s hs

new_size-push :
    (c : Chunk) (cs : List Chunk) → new_size (cs ++ c ∷ []) ≡ new_size cs + length c.bytes
new_size-push c [] = omega arith
new_size-push c (d ∷ cs) = omega (arith, new_size-push c cs)

held_size-push :
    (s : ChunkStorage) (h : ChunkHash) (hs : List ChunkHash)
    → held_size s (hs ++ h ∷ []) ≡ held_size s hs + size_of (Map.get h s.chunks)
held_size-push s h [] = omega arith
held_size-push s h (k ∷ hs) = omega (arith, held_size-push s h hs)

hashes-push : (c : Chunk) (cs : List Chunk) → hashes (cs ++ c ∷ []) ≡ hashes cs ++ c.hash ∷ []
hashes-push c [] = refl
hashes-push c (d ∷ cs) = ap (◌∷◌ d.hash) (hashes-push c cs)

first_with-push :
    (h : ChunkHash) (c : Chunk) (cs : List Chunk)
    → first_with h (cs ++ c ∷ []) ≡ (
        if mem h (hashes cs) then first_with h cs else (if h == c.hash then some c.bytes else none))
first_with-push h c [] = refl
first_with-push h c (d ∷ cs) = ground (arith, first_with-push h c cs)

pub is_some-first_with :
    (h : ChunkHash) (cs : List Chunk) → is_some (first_with h cs) ≡ mem h (hashes cs)
is_some-first_with h [] = refl
is_some-first_with h (d ∷ cs) = ground (arith, is_some-first_with h cs)

-- After the chunks `seen`: each hash that is not held is planned once, with the contents that came
-- first, each cached hash once, and the bytes are counted.
pub record IsPlan (s : ChunkStorage) (seen : List Chunk) (scan : Scan) : Type 0 where
  pub marks : (h : ChunkHash) → mem h scan.seen_hashes ≡ mem h (hashes seen)
  pub fresh :
      (h : ChunkHash)
      → count h (hashes scan.new_chunks)
        ≡ (if mem h (hashes seen) then 1 - held_flag (Map.get h s.chunks) else 0)
  pub cached :
      (h : ChunkHash)
      → count h scan.cached_hashes
        ≡ (if mem h (hashes seen) then cached_flag (Map.get h s.chunks) else 0)
  pub contents :
      (h : ChunkHash)
      → first_with h scan.new_chunks
        ≡ (if is_some (Map.get h s.chunks) then none else first_with h seen)
  pub required : scan.required_bytes ≡ new_size scan.new_chunks + held_size s scan.cached_hashes

IsPlan-start : (s : ChunkStorage) → IsPlan s [] start_scan
IsPlan-start s = record {
  marks = λ h. refl;
  fresh = λ h. count-nil h;
  cached = λ h. count-nil h;
  contents = λ h. ground arith;
  required = omega arith;
}

module _ (s : ChunkStorage) (seen : List Chunk) (scan : Scan) (c : Chunk)
    (p : IsPlan s seen scan) where
  push_mem :
      (h : ChunkHash)
      → mem h (hashes (seen ++ c ∷ [])) ≡ (mem h (hashes seen) || (h == c.hash || false))
  push_mem h = ap (mem h) (hashes-push c seen) ∙ mem-append h (hashes seen) (c.hash ∷ [])

  fresh_push :
      (h : ChunkHash)
      → count h (hashes (scan.new_chunks ++ c ∷ []))
        ≡ count h (hashes scan.new_chunks) + (if h == c.hash then 1 else 0)
  fresh_push h =
      ap (count h) (hashes-push c scan.new_chunks) ∙ count-push h c.hash (hashes scan.new_chunks)

  IsPlan-step : IsPlan s (seen ++ c ∷ []) (scan_chunk s scan c)
  unfolding scan_chunk note_chunk
  IsPlan-step = record {
    marks = λ h. ground (arith, push_mem h, p.marks h, p.marks c.hash);
    fresh = λ h. ground (arith, push_mem h, p.marks c.hash, p.fresh h, fresh_push h);
    cached = λ h.
        ground
          (arith, push_mem h, p.marks c.hash, p.cached h, count-push h c.hash scan.cached_hashes);
    contents = λ h. ground (
      arith,
      p.marks c.hash,
      p.contents h,
      first_with-push h c seen,
      first_with-push h c scan.new_chunks,
      is_some-first_with h seen,
      is_some-first_with h scan.new_chunks,
    );
    required = ground (
      arith,
      p.required,
      new_size-push c scan.new_chunks,
      held_size-push s c.hash scan.cached_hashes,
    );
  }

foldl-IsPlan :
    (s : ChunkStorage) (seen rest : List Chunk) (scan : Scan)
    → IsPlan s seen scan
    → IsPlan s (seen ++ rest) (foldl (scan_chunk s) scan rest)
foldl-IsPlan s seen [] scan p = rw append-nil p
foldl-IsPlan s seen (c ∷ rest) scan p =
    subst (λ l. IsPlan s l (foldl (scan_chunk s) (scan_chunk s scan c) rest))
      (append_assoc seen (c ∷ []) rest)
      (foldl-IsPlan s (seen ++ c ∷ []) rest (scan_chunk s scan c) (IsPlan-step s seen scan c p))

-- The first loop of `try_pin`.
pub scan-IsPlan :
    (s : ChunkStorage) (chunks : List Chunk)
    → IsPlan s chunks (foldl (scan_chunk s) start_scan chunks)
scan-IsPlan s chunks = foldl-IsPlan s [] chunks start_scan (IsPlan-start s)
