-- ===== src/Storage/Caching.antt =====
-- `cache`: the loop that evicts from the front of the queue, and what it leaves.
use edfs.Domain.{ChunkHash, Chunk}
use edfs.Prelude.Map
use edfs.Prelude.Map.{is_some}
use edfs.Prelude.{
  ℕ, ◌+◌, ◌≤◌, ◌<◌, ◌≡◌, refl, ap, true, false, ◌||◌, none, some, List, [], ◌∷◌, ◌++◌, arith,
  length, mem, count, count-nil, count-append-pos, if◌then◌else◌, ◌==◌, ltb, ltb→lt, Bool-cases,
  Option-cases, inl, inr, ◌⊎◌,
}
use edfs.Storage.{ChunkEntry, ChunkStorage, make_room, drop_cached, add_cached, cache}
use edfs.Storage.Accounts.{
  cached_size, Accounts, IsValid, drop_cached-Accounts, add_cached-Accounts,
}

-- The loop ends with room for `chunk_size` bytes. It has taken `victims` off the front of the
-- queue `lru`, and their entries off the map; nothing else changed.
pub record HasRoom (s : ChunkStorage) (chunk_size : ℕ) (lru : List ChunkHash) (r : ChunkStorage)
    : Type 0 where
  pub accounts : Accounts r
  pub room : r.cached_bytes + chunk_size ≤ r.max_cached_bytes
  pub victims : List ChunkHash
  pub order : lru ≡ victims ++ r.cache_lru
  pub chunks :
      (h : ChunkHash) → Map.get h r.chunks ≡ (if mem h victims then none else Map.get h s.chunks)
  pub frugal : (victims ≡ []) ⊎ (s.max_cached_bytes < s.cached_bytes + chunk_size)
  pub pinned_bytes : r.pinned_bytes ≡ s.pinned_bytes
  pub max_pinned_bytes : r.max_pinned_bytes ≡ s.max_pinned_bytes
  pub max_cached_bytes : r.max_cached_bytes ≡ s.max_cached_bytes

cached_bytes-eq-zero : (s : ChunkStorage) → Accounts s → s.cache_lru ≡ [] → s.cached_bytes ≡ 0
cached_bytes-eq-zero s a e =
    let unqueued : (h : ChunkHash) → Map.weight cached_size (Map.get h s.chunks) ≡ 0 =
      λ h. ground (arith, a.queued h, count-nil h) in
    omega (arith, Map.total-eq-zero cached_size s.chunks a.distinct unqueued, a.cached)

Map-get-drop_cached :
    (s : ChunkStorage) (hash h : ChunkHash)
    → Map.get h (drop_cached s hash).chunks ≡ (if h == hash then none else Map.get h s.chunks)
unfolding drop_cached
Map-get-drop_cached s hash h = ground (arith, Map.get-remove hash h s.chunks)

drop_cached_frame :
    (s : ChunkStorage) (hash : ChunkHash)
    → ((drop_cached s hash).pinned_bytes ≡ s.pinned_bytes)
      × ((drop_cached s hash).max_pinned_bytes ≡ s.max_pinned_bytes)
      × ((drop_cached s hash).max_cached_bytes ≡ s.max_cached_bytes)
unfolding drop_cached
drop_cached_frame s hash = ground arith

module _ (chunk_size : ℕ) where
  HasRoom-stop :
      (s : ChunkStorage) (lru : List ChunkHash)
      → Accounts (record s { cache_lru = lru })
      → s.cached_bytes + chunk_size ≤ s.max_cached_bytes
      → HasRoom s chunk_size lru (record s { cache_lru = lru })
  HasRoom-stop s lru a room = record {
    accounts = a;
    room = room;
    victims = [];
    order = refl;
    chunks = λ h. refl;
    frugal = inl refl;
    pinned_bytes = refl;
    max_pinned_bytes = refl;
    max_cached_bytes = refl;
  }

  HasRoom-drop :
      (s r : ChunkStorage) (hash : ChunkHash) (lru : List ChunkHash)
      → s.max_cached_bytes < s.cached_bytes + chunk_size
      → HasRoom (drop_cached s hash) chunk_size lru r
      → HasRoom s chunk_size (hash ∷ lru) r
  HasRoom-drop s r hash lru over v =
      let frame = drop_cached_frame s hash in
      record {
        accounts = v.accounts;
        room = v.room;
        victims = hash ∷ v.victims;
        order = ap (◌∷◌ hash) v.order;
        chunks = λ h. ground (arith, v.chunks h, Map-get-drop_cached s hash h);
        frugal = inr over;
        pinned_bytes = cc (frame.0, v.pinned_bytes);
        max_pinned_bytes = cc (frame.1, v.max_pinned_bytes);
        max_cached_bytes = cc (frame.2, v.max_cached_bytes);
      }

  pub make_room_lem :
      (s : ChunkStorage) (lru : List ChunkHash)
      → Accounts (record s { cache_lru = lru })
      → chunk_size ≤ s.max_cached_bytes
      → ((make_room s chunk_size lru).1 ≡ true)
        × HasRoom s chunk_size lru (make_room s chunk_size lru).0
  unfolding make_room
  make_room_lem s [] a fits =
      let empty : s.cached_bytes ≡ 0 = cached_bytes-eq-zero (record s { cache_lru = [] }) a refl in
      let room : s.cached_bytes + chunk_size ≤ s.max_cached_bytes = omega arith in
      let under : ltb s.max_cached_bytes (s.cached_bytes + chunk_size) ≡ false = ground arith in
      rw under (refl, HasRoom-stop s [] a room)
  make_room_lem s (hash ∷ lru) a fits =
      elim (Bool-cases (ltb s.max_cached_bytes (s.cached_bytes + chunk_size))) [
        | inl over ↦
            let (done, v) =
              make_room_lem (drop_cached s hash) lru (drop_cached-Accounts s hash lru a)
                (omega (arith, drop_cached_frame s hash)) in
            rw over (done, HasRoom-drop s _ hash lru (ltb→lt _ _ over) v)
        | inr under ↦ rw under (refl, HasRoom-stop s (hash ∷ lru) a (ground arith))
      ]

-- A chunk that is not held, of a size that the cache can hold, is added behind the queue.
cache_new :
    (s : ChunkStorage) (chunk : Chunk)
    → IsValid s
    → Map.get chunk.hash s.chunks ≡ none
    → length chunk.bytes ≤ s.max_cached_bytes
    → (r : ChunkStorage) × HasRoom s (length chunk.bytes) s.cache_lru r
      × (cache s chunk ≡ add_cached r chunk)
unfolding cache
cache_new s chunk v fresh fits =
    let (done, room) = make_room_lem (length chunk.bytes) s s.cache_lru v.accounts fits in
    ((make_room s (length chunk.bytes) s.cache_lru).0, room, ground arith)

cache_old :
    (s : ChunkStorage) (chunk : Chunk)
    → ((is_some (Map.get chunk.hash s.chunks) || ltb s.max_cached_bytes (length chunk.bytes))
        ≡ true)
    → cache s chunk ≡ s
unfolding cache
cache_old s chunk h = rw h

-- What `cache` did: it kept a chunk that it held or that is too large for the cache as it was, or
-- it took `victims` off the front of the queue and put the chunk at its back.
pub data Cached (s : ChunkStorage) (chunk : Chunk) (r : ChunkStorage) : Type 0 where
  skipped :
      (is_some (Map.get chunk.hash s.chunks) ≡ true) ⊎ (s.max_cached_bytes < length chunk.bytes)
      → r ≡ s
      → Cached s chunk r
  added :
      (victims kept : List ChunkHash)
      → Map.get chunk.hash s.chunks ≡ none
      → length chunk.bytes ≤ s.max_cached_bytes
      → s.cache_lru ≡ victims ++ kept
      → r.cache_lru ≡ kept ++ chunk.hash ∷ []
      → ((h : ChunkHash)
          → Map.get h r.chunks ≡ (
              if h == chunk.hash
              then some (record { bytes = chunk.bytes; pinned = false })
              else (if mem h victims then none else Map.get h s.chunks)))
      → (victims ≡ []) ⊎ (s.max_cached_bytes < s.cached_bytes + length chunk.bytes)
      → Cached s chunk r

cache-added :
    (s : ChunkStorage) (chunk : Chunk) (r : ChunkStorage)
    → IsValid s
    → Map.get chunk.hash s.chunks ≡ none
    → length chunk.bytes ≤ s.max_cached_bytes
    → HasRoom s (length chunk.bytes) s.cache_lru r
    → Cached s chunk (add_cached r chunk) × IsValid (add_cached r chunk)
unfolding add_cached
cache-added s chunk r valid fresh fits v =
    let entry : ChunkEntry = record { bytes = chunk.bytes; pinned = false } in
    (
      added v.victims r.cache_lru fresh fits v.order refl
          (λ h. ground (arith, Map.get-insert chunk.hash h entry r.chunks, v.chunks h)) v.frugal,
      record {
        accounts = add_cached-Accounts r chunk (ground (arith, v.chunks chunk.hash)) v.accounts;
        pinned_within = omega (arith, valid.pinned_within, v.pinned_bytes, v.max_pinned_bytes);
        cached_within = v.room;
      },
    )

cache-cases :
    (s : ChunkStorage) (chunk : Chunk)
    → IsValid s
    → Cached s chunk (cache s chunk) × IsValid (cache s chunk)
cache-cases s chunk v = elim (Option-cases (Map.get chunk.hash s.chunks)) [
  | inl fresh ↦ elim (Bool-cases (ltb s.max_cached_bytes (length chunk.bytes))) [
    | inl large ↦
        let same : cache s chunk ≡ s = cache_old s chunk (rw (fresh, large)) in
        (skipped (inr (ltb→lt _ _ large)) same, rw same v)
    | inr fits ↦
        let (r, room, e) = cache_new s chunk v fresh (ground arith) in
        rw e (cache-added s chunk r v fresh (ground arith) room)
  ]
  | inr (entry, held) ↦
      let same : cache s chunk ≡ s = cache_old s chunk (rw held) in
      (skipped (inl (rw held)) same, rw same v)
]

-- From a valid state `cache` either changes nothing, which it does exactly for a chunk that is held
-- or is larger than the cache, or it evicts hashes from the front of the queue, none where the
-- chunk fits without, and adds the chunk, unpinned, at the back; every other entry stays.
pub cache-Cached : (s : ChunkStorage) (chunk : Chunk) → IsValid s → Cached s chunk (cache s chunk)
cache-Cached s chunk v = (cache-cases s chunk v).0

pub cache-IsValid : (s : ChunkStorage) (chunk : Chunk) → IsValid s → IsValid (cache s chunk)
cache-IsValid s chunk v = (cache-cases s chunk v).1

pinned-Cached :
    {s r : ChunkStorage} {chunk : Chunk} (hash : ChunkHash) (entry : ChunkEntry)
    → Accounts s
    → Cached s chunk r
    → Map.get hash s.chunks ≡ some entry
    → entry.pinned ≡ true
    → Map.get hash r.chunks ≡ some entry
pinned-Cached hash entry a (skipped why e) held pinned = rw e held
pinned-Cached {s} {chunk} hash entry a (added victims kept fresh fits order back chunks frugal) held
      pinned =
    let queued : count hash (victims ++ kept) ≡ 0 =
      ground (arith, a.queued hash, ap (count hash) order) in
    elim (Bool-cases (mem hash victims)) [
      | inl gone ↦ absurd (omega (arith, count-append-pos hash victims kept gone))
      | inr stays ↦ ground (arith, chunks hash)
    ]

-- Caching a chunk never touches a pinned one.
pub cache_keeps_pinned :
    (s : ChunkStorage) (chunk : Chunk) (hash : ChunkHash) (entry : ChunkEntry)
    → IsValid s
    → Map.get hash s.chunks ≡ some entry
    → entry.pinned ≡ true
    → Map.get hash (cache s chunk).chunks ≡ some entry
cache_keeps_pinned s chunk hash entry v =
    pinned-Cached hash entry v.accounts (cache-Cached s chunk v)
