-- ===== src/Storage.antt =====
-- src/filesystem/storage.rs: `ChunkStorage`, the pinned chunks and the cache. `cache_lru` is the
-- queue behind the mutex, oldest hash first; a method that locks it returns the new state.
-- The byte counts add up lengths of vectors that are in memory together, so no sum of them reaches
-- 2 ^ 64; differences are written with their wrap-around.
pub mod Accounts
pub mod Caching
pub mod Pinning
pub mod Access
pub mod History
pub mod Durability
use edfs.Config.{fastcdc_max_chunk_size}
use edfs.Domain.{Bytes, ChunkHash, Chunk}
use edfs.Prelude.Map
use edfs.Prelude.Map.{Map, is_some}
use edfs.Prelude.{
  ℕ, ◌+◌, ◌*◌, Bool, true, false, not, ◌||◌, ltb, Option, none, some, List, [], ◌∷◌, ◌++◌, foldl,
  Result, ok, err, panic, length, mem, retain_ne, if◌then◌else◌, sub_u64,
}

abbrev pub max_cached_bytes_default : ℕ
max_cached_bytes_default = fastcdc_max_chunk_size * 16

pub data StorageError : Type 0 where
  storage_full : StorageError

pub record ChunkEntry : Type 0 where
  pub bytes : Bytes
  pub pinned : Bool

pub record ChunkStorage : Type 0 where
  pub chunks : Map ChunkEntry
  pub cache_lru : List ChunkHash
  pub pinned_bytes : ℕ
  pub cached_bytes : ℕ
  pub max_pinned_bytes : ℕ
  pub max_cached_bytes : ℕ

unfoldable pub new : ℕ → ChunkStorage
new max_pinned_bytes = record {
  chunks = [];
  cache_lru = [];
  pinned_bytes = 0;
  cached_bytes = 0;
  max_pinned_bytes = max_pinned_bytes;
  max_cached_bytes = max_cached_bytes_default;
}

unfoldable pub free_bytes : ChunkStorage → ℕ
free_bytes s = sub_u64 s.max_pinned_bytes s.pinned_bytes

-- The locals of `try_pin`.
pub record Scan : Type 0 where
  pub required_bytes : ℕ
  pub seen_hashes : List ChunkHash
  pub new_chunks : List Chunk
  pub cached_hashes : List ChunkHash

abbrev pub start_scan : Scan
start_scan = record { required_bytes = 0; seen_hashes = []; new_chunks = []; cached_hashes = [] }

-- The `match` of the first loop of `try_pin`.
unfoldable pub note_chunk : Scan → Chunk → Option ChunkEntry → Scan
note_chunk scan chunk (some entry) =
    if not entry.pinned
    then record scan {
      required_bytes = scan.required_bytes + length entry.bytes;
      cached_hashes = scan.cached_hashes ++ chunk.hash ∷ [];
    }
    else scan
note_chunk scan chunk none = record scan {
  required_bytes = scan.required_bytes + length chunk.bytes;
  new_chunks = scan.new_chunks ++ chunk ∷ [];
}

-- The body of the first loop of `try_pin`.
unfoldable pub scan_chunk : ChunkStorage → Scan → Chunk → Scan
scan_chunk s scan chunk =
    if mem chunk.hash scan.seen_hashes
    then scan
    else note_chunk (record scan { seen_hashes = chunk.hash ∷ scan.seen_hashes }) chunk
        (Map.get chunk.hash s.chunks)

-- The body of the second loop.
unfoldable pub pin_new : ChunkStorage → Chunk → ChunkStorage
pin_new s chunk = record s {
  pinned_bytes = s.pinned_bytes + length chunk.bytes;
  chunks = Map.insert chunk.hash (record { bytes = chunk.bytes; pinned = true }) s.chunks;
}

-- A cached entry becomes a pinned one: the writes that the third loop and `promote_to_pinned`
-- share.
unfoldable pub pin_entry : ChunkStorage → ChunkHash → ChunkEntry → ChunkStorage
pin_entry s hash entry = record s {
  chunks = Map.insert hash (record entry { pinned = true }) s.chunks;
  pinned_bytes = s.pinned_bytes + length entry.bytes;
  cached_bytes = sub_u64 s.cached_bytes (length entry.bytes);
  cache_lru = retain_ne hash s.cache_lru;
}

-- The third loop. Its `unwrap` panics on a hash that has no entry.
unfoldable pub pin_cached : ChunkStorage → List ChunkHash → Result StorageError ChunkStorage
pin_cached s [] = ok s
pin_cached s (hash ∷ hashes) = elim (Map.get hash s.chunks) [
  | none ↦ panic
  | some entry ↦ pin_cached (pin_entry s hash entry) hashes
]

unfoldable pub try_pin : ChunkStorage → List Chunk → Result StorageError ChunkStorage
try_pin s chunks =
    let scan = foldl (scan_chunk s) start_scan chunks in
    if ltb s.max_pinned_bytes (s.pinned_bytes + scan.required_bytes)
    then err storage_full
    else pin_cached (foldl pin_new s scan.new_chunks) scan.cached_hashes

-- `self.chunks.remove(&hash)` and the update of `cached_bytes`, in the loop of `cache`.
unfoldable pub drop_cached : ChunkStorage → ChunkHash → ChunkStorage
drop_cached s hash = elim (Map.get hash s.chunks) [
  | none ↦ s
  | some entry ↦ record s {
    chunks = Map.remove hash s.chunks;
    cached_bytes = sub_u64 s.cached_bytes (length entry.bytes);
  }
]

-- The `while` loop of `cache` over the queue; `false` is its early return.
unfoldable pub make_room : ChunkStorage → ℕ → List ChunkHash → ChunkStorage × Bool
make_room s chunk_size [] =
    if ltb s.max_cached_bytes (s.cached_bytes + chunk_size)
    then (record s { cache_lru = [] }, false)
    else (record s { cache_lru = [] }, true)
make_room s chunk_size (hash ∷ lru) =
    let evicted = make_room (drop_cached s hash) chunk_size lru in
    if ltb s.max_cached_bytes (s.cached_bytes + chunk_size)
    then evicted
    else (record s { cache_lru = hash ∷ lru }, true)

-- The end of `cache`.
unfoldable pub add_cached : ChunkStorage → Chunk → ChunkStorage
add_cached s chunk = record s {
  cache_lru = s.cache_lru ++ chunk.hash ∷ [];
  chunks = Map.insert chunk.hash (record { bytes = chunk.bytes; pinned = false }) s.chunks;
  cached_bytes = s.cached_bytes + length chunk.bytes;
}

unfoldable pub cache : ChunkStorage → Chunk → ChunkStorage
cache s chunk =
    let chunk_size = length chunk.bytes in
    if is_some (Map.get chunk.hash s.chunks) || ltb s.max_cached_bytes chunk_size
    then s
    else let (s', room) = make_room s chunk_size s.cache_lru in
      if room then add_cached s' chunk else s'

unfoldable pub get : ChunkStorage → ChunkHash → ChunkStorage × Option Bytes
get s hash = elim (Map.get hash s.chunks) [
  | none ↦ (s, none)
  | some entry ↦ (
    if not entry.pinned
        then record s { cache_lru = retain_ne hash s.cache_lru ++ hash ∷ [] }
        else s,
    some entry.bytes,
  )
]

unfoldable pub contains : ChunkStorage → ChunkHash → Bool
contains s hash = is_some (Map.get hash s.chunks)

unfoldable pub is_pinned : ChunkStorage → ChunkHash → Bool
is_pinned s hash = elim (Map.get hash s.chunks) [ none ↦ false | some entry ↦ entry.pinned ]

unfoldable pub is_cached : ChunkStorage → ChunkHash → Bool
is_cached s hash = elim (Map.get hash s.chunks) [ none ↦ false | some entry ↦ not entry.pinned ]

-- `filter` and `map` over the entries, for `pinned_hashes`.
unfoldable pub pinned_in : Map ChunkEntry → List ChunkHash
pinned_in [] = []
pinned_in ((hash, entry) ∷ chunks) =
    let rest = pinned_in chunks in if entry.pinned then hash ∷ rest else rest

unfoldable pub pinned_hashes : ChunkStorage → List ChunkHash
unfolding pinned_in
pinned_hashes s = pinned_in s.chunks

unfoldable pub promote_to_pinned : ChunkStorage → ChunkHash → ChunkStorage × Bool
promote_to_pinned s hash = elim (Map.get hash s.chunks) [
  | none ↦ (s, false)
  | some entry ↦
      if entry.pinned
      then (s, true)
      else if ltb s.max_pinned_bytes (s.pinned_bytes + length entry.bytes)
      then (s, false)
      else (pin_entry s hash entry, true)
]

unfoldable pub evict : ChunkStorage → ChunkHash → ChunkStorage × Bool
evict s hash = elim (Map.get hash s.chunks) [
  | none ↦ (s, false)
  | some entry ↦ (
    if entry.pinned
        then record s {
          chunks = Map.remove hash s.chunks;
          pinned_bytes = sub_u64 s.pinned_bytes (length entry.bytes);
        }
        else record s {
          chunks = Map.remove hash s.chunks;
          cached_bytes = sub_u64 s.cached_bytes (length entry.bytes);
          cache_lru = retain_ne hash s.cache_lru;
        },
    true,
  )
]
