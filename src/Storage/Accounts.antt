-- ===== src/Storage/Accounts.antt =====
-- The books of a `ChunkStorage`: the byte counts are those of its entries, and the queue holds the
-- hash of each cached chunk once. Each step that writes keeps them.
use edfs.Domain.{ChunkHash, Chunk}
use edfs.Prelude.Map
use edfs.Prelude.{
  ℕ, ◌≤◌, ◌≡◌, true, false, Option, none, some, List, ◌∷◌, arith, length, count, count-nil,
  count-cons, count-push, count-retain_ne, retain_ne, if◌then◌else◌,
}
use edfs.Storage.{
  ChunkEntry, ChunkStorage, new, pin_new, pin_entry, drop_cached, add_cached, get, evict,
}

abbrev pub pinned_size : ChunkEntry → ℕ
pinned_size entry = if entry.pinned then length entry.bytes else 0

abbrev pub cached_size : ChunkEntry → ℕ
cached_size entry = if entry.pinned then 0 else length entry.bytes

abbrev pub cached_flag : Option ChunkEntry → ℕ
cached_flag none = 0
cached_flag (some entry) = if entry.pinned then 0 else 1

-- The books, but for the bounds.
pub record Accounts (s : ChunkStorage) : Type 0 where
  pub distinct : Map.Distinct s.chunks
  pub pinned : s.pinned_bytes ≡ Map.total pinned_size s.chunks
  pub cached : s.cached_bytes ≡ Map.total cached_size s.chunks
  pub queued : (h : ChunkHash) → count h s.cache_lru ≡ cached_flag (Map.get h s.chunks)

pub record IsValid (s : ChunkStorage) : Type 0 where
  pub accounts : Accounts s
  pub pinned_within : s.pinned_bytes ≤ s.max_pinned_bytes
  pub cached_within : s.cached_bytes ≤ s.max_cached_bytes

pub new-IsValid : (n : ℕ) → IsValid (new n)
unfolding new
new-IsValid n = record {
  accounts = record {
    distinct = tt;
    pinned = omega (arith, Map.total-nil pinned_size);
    cached = omega (arith, Map.total-nil cached_size);
    queued = λ h. ground (arith, count-nil h, Map.get-nil {V = ChunkEntry} h);
  };
  pinned_within = omega arith;
  cached_within = omega arith;
}

pub pin_new-Accounts :
    (s : ChunkStorage) (chunk : Chunk)
    → Map.get chunk.hash s.chunks ≡ none
    → Accounts s
    → Accounts (pin_new s chunk)
unfolding pin_new
pin_new-Accounts s chunk fresh a =
    let entry : ChunkEntry = record { bytes = chunk.bytes; pinned = true } in
    record {
      distinct = Map.insert-Distinct chunk.hash entry s.chunks a.distinct;
      pinned = ground (arith, Map.total-insert pinned_size chunk.hash entry s.chunks, a.pinned);
      cached = ground (arith, Map.total-insert cached_size chunk.hash entry s.chunks, a.cached);
      queued = λ h. ground (arith, Map.get-insert chunk.hash h entry s.chunks, a.queued h);
    }

pub pin_entry-Accounts :
    (s : ChunkStorage) (hash : ChunkHash) (entry : ChunkEntry)
    → Map.get hash s.chunks ≡ some entry
    → entry.pinned ≡ false
    → Accounts s
    → Accounts (pin_entry s hash entry)
unfolding pin_entry
pin_entry-Accounts s hash entry held cached a =
    let entry' : ChunkEntry = record entry { pinned = true } in
    record {
      distinct = Map.insert-Distinct hash entry' s.chunks a.distinct;
      pinned = ground (arith, Map.total-insert pinned_size hash entry' s.chunks, a.pinned);
      cached = ground (arith, Map.total-insert cached_size hash entry' s.chunks, a.cached);
      queued = λ h. ground (
        arith,
        Map.get-insert hash h entry' s.chunks,
        a.queued h,
        count-retain_ne h hash s.cache_lru,
      );
    }

pub add_cached-Accounts :
    (s : ChunkStorage) (chunk : Chunk)
    → Map.get chunk.hash s.chunks ≡ none
    → Accounts s
    → Accounts (add_cached s chunk)
unfolding add_cached
add_cached-Accounts s chunk fresh a =
    let entry : ChunkEntry = record { bytes = chunk.bytes; pinned = false } in
    record {
      distinct = Map.insert-Distinct chunk.hash entry s.chunks a.distinct;
      pinned = ground (arith, Map.total-insert pinned_size chunk.hash entry s.chunks, a.pinned);
      cached = ground (arith, Map.total-insert cached_size chunk.hash entry s.chunks, a.cached);
      queued = λ h. ground (
        arith,
        Map.get-insert chunk.hash h entry s.chunks,
        a.queued h,
        count-push h chunk.hash s.cache_lru,
      );
    }

pub get-Accounts : (s : ChunkStorage) (hash : ChunkHash) → Accounts s → Accounts (get s hash).0
unfolding get
get-Accounts s hash a = record {
  distinct = ground arith;
  pinned = ground (arith, a.pinned);
  cached = ground (arith, a.cached);
  queued = λ h. ground (
    arith,
    a.queued h,
    count-retain_ne h hash s.cache_lru,
    count-push h hash (retain_ne hash s.cache_lru),
  );
}

-- `drop_cached` leaves the queue to its caller, `make_room`, which has taken the hash off it.
pub drop_cached-Accounts :
    (s : ChunkStorage) (hash : ChunkHash) (lru : List ChunkHash)
    → Accounts (record s { cache_lru = hash ∷ lru })
    → Accounts (record (drop_cached s hash) { cache_lru = lru })
unfolding drop_cached
drop_cached-Accounts s hash lru a = record {
  distinct = ground (arith, Map.remove-Distinct hash s.chunks a.distinct);
  pinned = ground (
    arith,
    Map.total-remove pinned_size hash s.chunks a.distinct,
    a.pinned,
    a.queued hash,
    count-cons hash hash lru,
  );
  cached = ground (
    arith,
    Map.total-remove cached_size hash s.chunks a.distinct,
    a.cached,
    a.queued hash,
    count-cons hash hash lru,
  );
  queued = λ h. ground (
    arith,
    Map.get-remove hash h s.chunks,
    a.queued h,
    a.queued hash,
    count-cons h hash lru,
    count-cons hash hash lru,
  );
}

pub evict-Accounts : (s : ChunkStorage) (hash : ChunkHash) → Accounts s → Accounts (evict s hash).0
unfolding evict
evict-Accounts s hash a = record {
  distinct = ground (arith, Map.remove-Distinct hash s.chunks a.distinct, a.distinct);
  pinned = ground (arith, Map.total-remove pinned_size hash s.chunks a.distinct, a.pinned);
  cached = ground (arith, Map.total-remove cached_size hash s.chunks a.distinct, a.cached);
  queued = λ h.
      ground
        (arith, Map.get-remove hash h s.chunks, a.queued h, count-retain_ne h hash s.cache_lru);
}
