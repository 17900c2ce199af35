-- ===== src/Tests/Storage.antt =====
-- The storage: pins, a promotion and a refusal on a few bytes.
use edfs.Domain.{Bytes, Chunk, new_chunk}
use edfs.Prelude.Map
use edfs.Prelude.{
  ◌+◌, ◌≡◌, refl, true, some, List, [], ◌∷◌, ok, err, arith, ltb, All, retain_ne, count,
  if◌then◌else◌,
}
use edfs.Storage
use edfs.Storage.{
  ChunkStorage, StorageError, storage_full, new, note_chunk, scan_chunk, pin_new, pin_entry,
  pin_cached, try_pin, drop_cached, make_room, add_cached, free_bytes, promote_to_pinned, is_pinned,
}
use edfs.Storage.Accounts.{new-IsValid}
use edfs.Storage.Access.{promote_to_pinned-Answered, Answered, free_bytes_lem}
use edfs.Storage.Caching.{Cached, cache-Cached, cache-IsValid}
use edfs.Storage.History.{Call, pin, cache, get, promote, evict, step, run, IsSound, run-IsSound}
use edfs.Storage.Durability.{Spares, HasPinned, run_keeps_pinned}
use edfs.Storage.Pinning.Loops.{AllPinned, try_pin-AllPinned}
use edfs.Tests.Samples.{sample_digest}

program : Unit {0}
unfolding Map.get Map.insert Map.remove new note_chunk scan_chunk pin_new pin_entry pin_cached
    try_pin drop_cached make_room add_cached Storage.cache Storage.get promote_to_pinned
    Storage.evict step run retain_ne
program = tt

abbrev bytes : Bytes
bytes = 1 ∷ 2 ∷ []

abbrev chunk : Chunk
chunk = new_chunk sample_digest bytes

abbrev calls : List Call
calls =
    cache (3 ∷ [])
    ∷ get (sample_digest (3 ∷ []))
    ∷ promote (sample_digest (3 ∷ []))
    ∷ evict (sample_digest (3 ∷ []))
    ∷ []

-- Two copies of a chunk take its size once, and a third byte does not fit beside them.
pins_once : (s : ChunkStorage) × (try_pin (new 2) (chunk ∷ chunk ∷ []) ≡ ok s)
unfolding program
pins_once = (_, refl)

refuses : try_pin (new 1) (chunk ∷ []) ≡ err storage_full
unfolding program
refuses = refl

abbrev pinned : ChunkStorage
pinned = pin_new (new 4) chunk

run-IsSound_example :
    (r : ChunkStorage) × (run sample_digest (new 4) (pin (bytes ∷ []) ∷ calls) ≡ some r)
    × IsSound sample_digest r
run-IsSound_example = run-IsSound sample_digest 4 (pin (bytes ∷ []) ∷ calls)

try_pin-AllPinned_example :
    (r : ChunkStorage) × AllPinned (new 2) (chunk ∷ chunk ∷ []) r
    × (try_pin (new 2) (chunk ∷ chunk ∷ [])
        ≡ (if ltb ((new 2).max_pinned_bytes) r.pinned_bytes then err storage_full else ok r))
try_pin-AllPinned_example = try_pin-AllPinned (new 2) (chunk ∷ chunk ∷ []) (new-IsValid 2)

cache-Cached_example : Cached (new 4) chunk (Storage.cache (new 4) chunk)
cache-Cached_example = cache-Cached (new 4) chunk (new-IsValid 4)

promote_to_pinned-Answered_example :
    Answered
      (Storage.cache (new 4) chunk)
      chunk.hash
      (promote_to_pinned (Storage.cache (new 4) chunk) chunk.hash)
promote_to_pinned-Answered_example =
    promote_to_pinned-Answered (Storage.cache (new 4) chunk) chunk.hash

free_bytes_lem_example :
    free_bytes (Storage.cache (new 4) chunk) + (Storage.cache (new 4) chunk).pinned_bytes
    ≡ (Storage.cache (new 4) chunk).max_pinned_bytes
free_bytes_lem_example =
    free_bytes_lem (Storage.cache (new 4) chunk) (cache-IsValid (new 4) chunk (new-IsValid 4))

abbrev pub one_pinned : ChunkStorage
one_pinned = record {
  chunks = (chunk.hash, record { bytes = bytes; pinned = true }) ∷ [];
  cache_lru = [];
  pinned_bytes = 2;
  cached_bytes = 0;
  max_pinned_bytes = 4;
  max_cached_bytes = 10;
}

pub one_pinned-IsSound : IsSound sample_digest one_pinned
unfolding Map.get Map.total count
one_pinned-IsSound = record {
  valid = record {
    accounts = record {
      distinct = (refl, tt);
      pinned = refl;
      cached = refl;
      queued = λ h. ground arith;
    };
    pinned_within = omega arith;
    cached_within = omega arith;
  };
  addressed = λ h. ground arith;
}

spared : All (Spares chunk.hash) calls
spared = (tt, (tt, (tt, ((λ same. omega arith), tt))))

run_keeps_pinned_example : HasPinned chunk.hash bytes one_pinned
unfolding program
run_keeps_pinned_example =
    run_keeps_pinned sample_digest chunk.hash bytes calls one_pinned one_pinned one_pinned-IsSound
      spared refl refl
