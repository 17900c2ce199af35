-- ===== src/Storage/Access.antt =====
-- `get`, `promote_to_pinned`, `evict` and `free_bytes`, from a valid state.
use edfs.Domain.{Bytes, ChunkHash}
use edfs.Prelude.Map
use edfs.Prelude.Map.{is_some}
use edfs.Prelude.{
  ◌+◌, ◌≤◌, ◌<◌, ◌≡◌, refl, Bool, true, false, Option, none, some, [], ◌∷◌, ◌++◌, arith, length,
  retain_ne, if◌then◌else◌, ◌==◌, ltb, ltb→lt, Bool-cases, Option-cases, inl, inr, ◌⊎◌,
}
use edfs.Storage.{
  ChunkEntry, ChunkStorage, get, contains, is_pinned, is_cached, promote_to_pinned, evict,
  free_bytes, pin_entry,
}
use edfs.Storage.Accounts.{
  cached_size, pinned_size, IsValid, get-Accounts, pin_entry-Accounts, evict-Accounts,
}
use edfs.Storage.Pinning.{size_of}
use edfs.Storage.Pinning.Rounds.{cached_bytes-pin_entry, Map-get-pin_entry, pin_entry_frame}

abbrev pub bytes_of : Option ChunkEntry → Option Bytes
bytes_of none = none
bytes_of (some entry) = some entry.bytes

-- A read returns the contents of the entry and changes no entry and no count; the hash of a cached
-- chunk moves to the back of the queue, and any other read leaves the queue.
pub get_lem :
    (s : ChunkStorage) (hash : ChunkHash)
    → ((get s hash).1 ≡ bytes_of (Map.get hash s.chunks))
      × ((get s hash).0 ≡ record s {
        cache_lru =
            if is_cached s hash then retain_ne hash s.cache_lru ++ hash ∷ [] else s.cache_lru;
      })
unfolding get is_cached
get_lem s hash = ground arith

pub get-IsValid : (s : ChunkStorage) (hash : ChunkHash) → IsValid s → IsValid (get s hash).0
unfolding get
get-IsValid s hash v = record {
  accounts = get-Accounts s hash v.accounts;
  pinned_within = ground (arith, v.pinned_within);
  cached_within = ground (arith, v.cached_within);
}

-- The subtraction in `free_bytes` does not wrap: free and pinned bytes make up the capacity.
pub free_bytes_lem :
    (s : ChunkStorage) → IsValid s → free_bytes s + s.pinned_bytes ≡ s.max_pinned_bytes
unfolding free_bytes
free_bytes_lem s v = ground (arith, v.pinned_within)

pin_entry-IsValid :
    (s : ChunkStorage) (hash : ChunkHash) (entry : ChunkEntry)
    → Map.get hash s.chunks ≡ some entry
    → entry.pinned ≡ false
    → s.pinned_bytes + length entry.bytes ≤ s.max_pinned_bytes
    → IsValid s
    → IsValid (pin_entry s hash entry)
pin_entry-IsValid s hash entry held cached fits v =
    let (bytes, max_pinned, max_cached) = pin_entry_frame s hash entry in
    record {
      accounts = pin_entry-Accounts s hash entry held cached v.accounts;
      pinned_within = omega arith;
      cached_within =
          omega
            (arith, cached_bytes-pin_entry s hash entry held cached v.accounts, v.cached_within);
    }

promote_to_pinned-eq-pin_entry :
    (s : ChunkStorage) (hash : ChunkHash) (entry : ChunkEntry)
    → Map.get hash s.chunks ≡ some entry
    → entry.pinned ≡ false
    → s.pinned_bytes + length entry.bytes ≤ s.max_pinned_bytes
    → promote_to_pinned s hash ≡ (pin_entry s hash entry, true)
unfolding promote_to_pinned
promote_to_pinned-eq-pin_entry s hash entry held cached fits = ground arith

promote_to_pinned_same :
    (s : ChunkStorage) (hash : ChunkHash) (entry : ChunkEntry)
    → Map.get hash s.chunks ≡ some entry
    → (entry.pinned ≡ true) ⊎ (s.max_pinned_bytes < s.pinned_bytes + length entry.bytes)
    → promote_to_pinned s hash ≡ (s, entry.pinned)
unfolding promote_to_pinned
promote_to_pinned_same s hash entry held why = ground arith

promote_to_pinned_absent :
    (s : ChunkStorage) (hash : ChunkHash)
    → Map.get hash s.chunks ≡ none
    → promote_to_pinned s hash ≡ (s, false)
unfolding promote_to_pinned
promote_to_pinned_absent s hash absent = ground arith

-- What `promote_to_pinned` did: nothing, or it pinned a cached chunk that the limit admits.
data Promoted (s : ChunkStorage) (hash : ChunkHash) (r : ChunkStorage × Bool) : Type 0 where
  absent : Map.get hash s.chunks ≡ none → r ≡ (s, false) → Promoted s hash r
  same :
      (entry : ChunkEntry)
      → Map.get hash s.chunks ≡ some entry
      → (entry.pinned ≡ true) ⊎ (s.max_pinned_bytes < s.pinned_bytes + length entry.bytes)
      → r ≡ (s, entry.pinned)
      → Promoted s hash r
  promoted :
      (entry : ChunkEntry)
      → Map.get hash s.chunks ≡ some entry
      → entry.pinned ≡ false
      → s.pinned_bytes + length entry.bytes ≤ s.max_pinned_bytes
      → r ≡ (pin_entry s hash entry, true)
      → Promoted s hash r

promote_to_pinned-Promoted :
    (s : ChunkStorage) (hash : ChunkHash) → Promoted s hash (promote_to_pinned s hash)
promote_to_pinned-Promoted s hash = elim (Option-cases (Map.get hash s.chunks)) [
  | inl none_held ↦ absent none_held (promote_to_pinned_absent s hash none_held)
  | inr (entry, held) ↦ elim (Bool-cases entry.pinned) [
    | inl pinned ↦
        same entry held (inl pinned) (promote_to_pinned_same s hash entry held (inl pinned))
    | inr cached ↦
        elim (Bool-cases (ltb s.max_pinned_bytes (s.pinned_bytes + length entry.bytes))) [
          | inl over ↦
              let full : s.max_pinned_bytes < s.pinned_bytes + length entry.bytes =
                ltb→lt _ _ over in
              same entry held (inr full) (promote_to_pinned_same s hash entry held (inr full))
          | inr fits ↦
              let room : s.pinned_bytes + length entry.bytes ≤ s.max_pinned_bytes = ground arith in
              promoted entry held cached room
                (promote_to_pinned-eq-pin_entry s hash entry held cached room)
        ]
  ]
]

Promoted-IsValid :
    {s : ChunkStorage} {hash : ChunkHash} {r : ChunkStorage × Bool}
    → Promoted s hash r
    → IsValid s
    → IsValid r.0
Promoted-IsValid (absent none_held e) v = rw e v
Promoted-IsValid (same entry held why e) v = rw e v
Promoted-IsValid (promoted entry held cached fits e) v =
    rw e (pin_entry-IsValid _ _ entry held cached fits v)

pub promote_to_pinned-IsValid :
    (s : ChunkStorage) (hash : ChunkHash) → IsValid s → IsValid (promote_to_pinned s hash).0
promote_to_pinned-IsValid s hash v = Promoted-IsValid (promote_to_pinned-Promoted s hash) v

-- The answer is whether the chunk is pinned afterwards, a refusal has a reason, and the contents of
-- every chunk stay.
abbrev pub Answered : ChunkStorage → ChunkHash → ChunkStorage × Bool → Type 0
Answered s hash r =
    (r.1 ≡ is_pinned r.0 hash)
    × ((r.1 ≡ true)
        ⊎ (Map.get hash s.chunks ≡ none)
        ⊎ (s.max_pinned_bytes < s.pinned_bytes + size_of (Map.get hash s.chunks)))
    × ((h : ChunkHash) → bytes_of (Map.get h r.0.chunks) ≡ bytes_of (Map.get h s.chunks))

Promoted-Answered :
    {s : ChunkStorage} {hash : ChunkHash} {r : ChunkStorage × Bool}
    → Promoted s hash r
    → Answered s hash r
unfolding is_pinned
Promoted-Answered (absent none_held e) = rw e (ground arith, inr (inl none_held), λ h. refl)
Promoted-Answered (same entry held why e) = rw e (ground arith, ground arith, λ h. refl)
Promoted-Answered {s} {hash} (promoted entry held cached fits e) = rw e (
  ground (arith, Map-get-pin_entry s hash entry hash),
  inl refl,
  λ h. ground (arith, Map-get-pin_entry s hash entry h, held),
)

-- `promote_to_pinned` answers whether the chunk is pinned afterwards; it refuses only a chunk that
-- is not held or that would exceed the limit, and the contents of every chunk stay.
pub promote_to_pinned-Answered :
    (s : ChunkStorage) (hash : ChunkHash) → Answered s hash (promote_to_pinned s hash)
promote_to_pinned-Answered s hash = Promoted-Answered (promote_to_pinned-Promoted s hash)

-- `evict` answers whether the chunk was held, takes that chunk away, and no other.
pub evict_lem :
    (s : ChunkStorage) (hash : ChunkHash)
    → ((evict s hash).1 ≡ contains s hash)
      × ((h : ChunkHash)
          → Map.get h (evict s hash).0.chunks ≡ (if h == hash then none else Map.get h s.chunks))
unfolding evict contains
evict_lem s hash = (ground arith, λ h. ground (arith, Map.get-remove hash h s.chunks))

pub evict-IsValid : (s : ChunkStorage) (hash : ChunkHash) → IsValid s → IsValid (evict s hash).0
unfolding evict
evict-IsValid s hash v = record {
  accounts = evict-Accounts s hash v.accounts;
  pinned_within = ground (
    arith,
    v.pinned_within,
    v.accounts.pinned,
    Map.total-remove pinned_size hash s.chunks v.accounts.distinct,
  );
  cached_within = ground (
    arith,
    v.cached_within,
    v.accounts.cached,
    Map.total-remove cached_size hash s.chunks v.accounts.distinct,
  );
}
