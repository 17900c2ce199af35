-- ===== src/Fuse/Fetched.antt =====
-- `fetch_missing_chunks`: with answers from the gateway and room in the cache, nothing is missing.
use mathlib.Core.List.{map}
use edfs.Crates.{Crates}
use edfs.Domain.{Bytes, Chunk, ChunkHash, ChunkRef, NodeId, regular_file, new_chunk}
use edfs.FileSystem.{FileSystem, metadata}
use edfs.FileSystem.Read.{missing_chunks, missing_chunk_hashes_for}
use edfs.Fuse.Actions.{FuseFileSystem, cache_all, fetch_missing_chunks}
use edfs.Prelude.Map
use edfs.Prelude.Map.{is_some}
use edfs.Storage.{ChunkStorage, ChunkEntry, make_room, add_cached, cache, contains}
use edfs.Prelude.{
  ℕ, ◌+◌, ◌≤◌, ◌≡◌, ◌⊎◌, refl, ◌∙◌, inl, inr, true, false, ltb, leb, Bool-cases, Option, none, some,
  String, List, [], ◌∷◌, All, mem, mem-append, length, ok, arith, min, saturating_add, add_u64,
}

-- What a chunk that fits into the cache leaves there.
record Fitted (s : ChunkStorage) (chunk : Chunk) (r : ChunkStorage) : Type 0 where
  here : contains r chunk.hash ≡ true
  kept : (h : ChunkHash) → (contains s h ≡ false) ⊎ (contains r h ≡ true)
  cached_bytes : r.cached_bytes ≤ s.cached_bytes + length chunk.bytes
  max_cached_bytes : r.max_cached_bytes ≡ s.max_cached_bytes

make_room_fits :
    (s : ChunkStorage) (size : ℕ) (lru : List ChunkHash)
    → s.cached_bytes + size ≤ s.max_cached_bytes
    → make_room s size lru ≡ (record s { cache_lru = lru }, true)
unfolding make_room
make_room_fits s size [] fits = ground arith
make_room_fits s size (hash ∷ lru) fits = ground arith

cache_added :
    (s : ChunkStorage) (chunk : Chunk)
    → is_some (Map.get chunk.hash s.chunks) ≡ false
    → s.cached_bytes + length chunk.bytes ≤ s.max_cached_bytes
    → cache s chunk ≡ add_cached s chunk
unfolding cache
cache_added s chunk fresh fits =
    let small : ltb s.max_cached_bytes (length chunk.bytes) ≡ false = ground arith in
    rw (cache, fresh, small, make_room_fits s (length chunk.bytes) s.cache_lru fits) refl

cache_held :
    (s : ChunkStorage) (chunk : Chunk)
    → is_some (Map.get chunk.hash s.chunks) ≡ true
    → cache s chunk ≡ s
unfolding cache
cache_held s chunk held = rw (cache, held) refl

added-Fitted : (s : ChunkStorage) (chunk : Chunk) → Fitted s chunk (add_cached s chunk)
unfolding add_cached contains
added-Fitted s chunk =
    let entry : ChunkEntry = record { bytes = chunk.bytes; pinned = false } in
    record {
      here = ground (arith, Map.get-insert chunk.hash chunk.hash entry s.chunks);
      kept = λ h. ground (arith, Map.get-insert chunk.hash h entry s.chunks);
      cached_bytes = omega arith;
      max_cached_bytes = refl;
    }

cache-Fitted :
    (s : ChunkStorage) (chunk : Chunk)
    → s.cached_bytes + length chunk.bytes ≤ s.max_cached_bytes
    → Fitted s chunk (cache s chunk)
unfolding contains
cache-Fitted s chunk fits = elim (Bool-cases (is_some (Map.get chunk.hash s.chunks))) [
  | inl held ↦
      let same : cache s chunk ≡ s = cache_held s chunk held in
      rw same (record {
        here = held;
        kept = λ h. elim (Bool-cases (contains s h)) [
          | inl held_now ↦ inr held_now
          | inr absent ↦ inl absent
        ];
        cached_bytes = omega arith;
        max_cached_bytes = refl;
      })
  | inr fresh ↦ rw (cache_added s chunk fresh fits) (added-Fitted s chunk)
]

module _ (crates : Crates) (fetch : ChunkHash → Option Bytes) where
  open crates use {Replica, digest}

  -- The gateway answers the request for a hash with contents of that digest.
  abbrev pub IsAnswered : ChunkHash → Type 0
  IsAnswered h = (content : Bytes) × (fetch h ≡ some content) × (digest content ≡ h)

  abbrev pub answer_size : Option Bytes → ℕ
  answer_size none = 0
  answer_size (some content) = length content

  abbrev pub answers_size : List ChunkHash → ℕ
  answers_size [] = 0
  answers_size (h ∷ hs) = answer_size (fetch h) + answers_size hs

  record AllCached (s : ChunkStorage) (hs : List ChunkHash) (r : ChunkStorage) : Type 0 where
    here : (h : ChunkHash) → (mem h hs ≡ false) ⊎ (contains r h ≡ true)
    kept : (h : ChunkHash) → (contains s h ≡ false) ⊎ (contains r h ≡ true)

  cache_all-AllCached :
      (fs : FileSystem Replica) (hs : List ChunkHash)
      → All IsAnswered hs
      → fs.storage.cached_bytes + answers_size hs ≤ fs.storage.max_cached_bytes
      → (r : ChunkStorage) × (cache_all crates fetch fs (map fetch hs)
          ≡ (true, record fs { storage = r }))
        × AllCached fs.storage hs r
  unfolding cache_all
  cache_all-AllCached fs [] a fits = (
    fs.storage,
    refl,
    record {
      here = λ h. inl refl;
      kept = λ h. elim (Bool-cases (contains fs.storage h)) [
        | inl held_now ↦ inr held_now
        | inr absent ↦ inl absent
      ];
    },
  )
  cache_all-AllCached fs (h ∷ hs) ((content, e, d), a) fits =
      let chunk : Chunk = new_chunk digest content in
      let size : answer_size (fetch h) ≡ length content = rw e refl in
      let one = cache-Fitted fs.storage chunk (omega arith) in
      let fs' : FileSystem Replica = record fs { storage = cache fs.storage chunk } in
      let (r, done, all) =
        cache_all-AllCached fs' hs a (omega (arith, one.cached_bytes, one.max_cached_bytes)) in
      (
        r,
        rw (e, cache_all) done,
        record {
          here = λ j. ground (arith, all.here j, all.kept j, one.here, d);
          kept = λ j. ground (arith, one.kept j, all.kept j);
        },
      )

module _ (crates : Crates) where
  same_metadata :
      (fs : FileSystem (crates.Replica)) (r : ChunkStorage) (node_id : NodeId)
      → metadata crates (record fs { storage = r }) node_id ≡ metadata crates fs node_id
  unfolding metadata
  same_metadata fs r node_id = refl

-- What is not missing, or is held by now, is not missing later.
missing_chunks_filled :
    (offset read_end start : ℕ) (s r : ChunkStorage) (rs : List ChunkRef)
    → ((h : ChunkHash)
        → (mem h (missing_chunks offset read_end start s rs) ≡ false) ⊎ (contains r h ≡ true))
    → ((h : ChunkHash) → (contains s h ≡ false) ⊎ (contains r h ≡ true))
    → missing_chunks offset read_end start r rs ≡ []
unfolding missing_chunks
missing_chunks_filled offset read_end start s r [] filled kept = refl
missing_chunks_filled offset read_end start s r (c ∷ rs) filled kept =
    let chunk_end : ℕ = add_u64 start c.size in
    let rest : List ChunkHash = missing_chunks offset read_end chunk_end s rs in
    elim (Bool-cases (leb read_end chunk_end)) [
      | inl last ↦ ground (arith, filled c.hash, kept c.hash)
      | inr more ↦
          let later =
            missing_chunks_filled offset read_end chunk_end s r rs
              (λ h. ground (arith, filled h, mem-append h (c.hash ∷ []) rest)) kept in
          ground (arith, filled c.hash, kept c.hash, later)
    ]

module _ (crates : Crates) (fetch : ChunkHash → Option Bytes) where
  open crates use {Replica}

  abbrev missing_now : FileSystem Replica → ℕ → ℕ → ℕ → List ChunkRef → List ChunkHash
  missing_now fs offset len size rs =
      missing_chunks offset (min (saturating_add offset len) size) 0 fs.storage rs

  -- If the gateway answers each request for a chunk of the range that is missing with contents of
  -- its digest, and these fit into the cache beside what is there, `fetch_missing_chunks` returns
  -- `true` and changes nothing but the storage, and then `missing_chunk_hashes_for` reports nothing
  -- for the range.
  pub fetch_missing_chunks_complete :
      (s : FuseFileSystem Replica) (node_id : NodeId) (offset len : ℕ) {name : String} {size : ℕ}
      {rs : List ChunkRef}
      → metadata crates s.filesystem node_id ≡ ok (regular_file name size rs)
      → All (IsAnswered crates fetch) (missing_now s.filesystem offset len size rs)
      → s.filesystem.storage.cached_bytes
          + answers_size crates fetch (missing_now s.filesystem offset len size rs)
        ≤ s.filesystem.storage.max_cached_bytes
      → (r : ChunkStorage) × (fetch_missing_chunks crates fetch node_id offset len s
          ≡ (ok true, record s { filesystem = record s.filesystem { storage = r } }))
        × (missing_chunk_hashes_for crates (record s.filesystem { storage = r }) node_id offset len
            ≡ ok [])
  unfolding fetch_missing_chunks missing_chunk_hashes_for
  fetch_missing_chunks_complete s node_id offset len {name} {size} {rs} file answered fits =
      let stop : ℕ = min (saturating_add offset len) size in
      let (r, done, all) =
        cache_all-AllCached crates fetch s.filesystem (missing_now s.filesystem offset len size rs)
          answered fits in
      let same : metadata crates (record s.filesystem { storage = r }) node_id
          ≡ ok (regular_file name size rs) =
        same_metadata crates s.filesystem r node_id ∙ file in
      (
        r,
        rw (fetch_missing_chunks, missing_chunk_hashes_for, file, done) refl,
        rw
            (
              missing_chunk_hashes_for,
              same,
              missing_chunks_filled offset stop 0 s.filesystem.storage r rs all.here all.kept,
            )
            refl,
      )
