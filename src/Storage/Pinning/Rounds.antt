-- ===== src/Storage/Pinning/Rounds.antt =====
-- `try_pin`: its second and its third loop.
use edfs.Domain.{Bytes, ChunkHash, Chunk}
use edfs.Prelude.Map
use edfs.Prelude.Map.{is_some}
use edfs.Prelude.{
  ◌+◌, ◌≤◌, ◌≡◌, refl, ◌∙◌, true, false, Option, none, some, List, [], ◌∷◌, foldl, arith, length,
  mem, mem-eq-false, count, count-cons, if◌then◌else◌, ◌==◌, Option-cases, inl, inr, ok,
}
use edfs.Storage.{ChunkEntry, ChunkStorage, pin_new, pin_entry, pin_cached}
use edfs.Storage.Accounts.{cached_flag, cached_size, Accounts, pin_new-Accounts, pin_entry-Accounts}
use edfs.Storage.Pinning.{
  hashes, first_with, held_flag, size_of, new_size, held_size, is_some-first_with,
}

abbrev pub pinned_entry : Bytes → ChunkEntry
pinned_entry bytes = record { bytes = bytes; pinned = true }

-- The entry that a hash has once the new chunks are pinned.
abbrev pub with_new : Option ChunkEntry → Option Bytes → Option ChunkEntry
with_new held none = held
with_new held (some bytes) = some (pinned_entry bytes)

pub record NewPinned (s : ChunkStorage) (cs : List Chunk) (r : ChunkStorage) : Type 0 where
  pub accounts : Accounts r
  pub entries :
      (h : ChunkHash) → Map.get h r.chunks ≡ with_new (Map.get h s.chunks) (first_with h cs)
  pub pinned_bytes : r.pinned_bytes ≡ s.pinned_bytes + new_size cs
  pub cached_bytes : r.cached_bytes ≡ s.cached_bytes
  pub max_pinned_bytes : r.max_pinned_bytes ≡ s.max_pinned_bytes
  pub max_cached_bytes : r.max_cached_bytes ≡ s.max_cached_bytes

Map-get-pin_new :
    (s : ChunkStorage) (c : Chunk) (h : ChunkHash)
    → Map.get h (pin_new s c).chunks
      ≡ (if h == c.hash then some (pinned_entry c.bytes) else Map.get h s.chunks)
unfolding pin_new
Map-get-pin_new s c h = Map.get-insert c.hash h (pinned_entry c.bytes) s.chunks

NewPinned-cons :
    (s : ChunkStorage) (c : Chunk) (cs : List Chunk) (r : ChunkStorage)
    → count c.hash (hashes cs) ≡ 0
    → NewPinned (pin_new s c) cs r
    → NewPinned s (c ∷ cs) r
unfolding pin_new
NewPinned-cons s c cs r once p = record {
  accounts = p.accounts;
  entries = λ h. ground (
    arith,
    p.entries h,
    Map-get-pin_new s c h,
    mem-eq-false h (hashes cs),
    is_some-first_with h cs,
    once,
  );
  pinned_bytes = omega (arith, p.pinned_bytes);
  cached_bytes = p.cached_bytes;
  max_pinned_bytes = p.max_pinned_bytes;
  max_cached_bytes = p.max_cached_bytes;
}

pub foldl-NewPinned :
    (s : ChunkStorage) (cs : List Chunk)
    → ((h : ChunkHash) → count h (hashes cs) + held_flag (Map.get h s.chunks) ≤ 1)
    → Accounts s
    → NewPinned s cs (foldl pin_new s cs)
foldl-NewPinned s [] fresh a = record {
  accounts = a;
  entries = λ h. refl;
  pinned_bytes = omega arith;
  cached_bytes = refl;
  max_pinned_bytes = refl;
  max_cached_bytes = refl;
}
foldl-NewPinned s (c ∷ cs) fresh a =
    let absent : Map.get c.hash s.chunks ≡ none =
      ground (arith, fresh c.hash, count-cons c.hash c.hash (hashes cs)) in
    let later : (h : ChunkHash)
        → count h (hashes cs) + held_flag (Map.get h (pin_new s c).chunks) ≤ 1 =
      λ h. ground (arith, fresh h, Map-get-pin_new s c h, count-cons h c.hash (hashes cs)) in
    NewPinned-cons s c cs _ (ground (arith, fresh c.hash, count-cons c.hash c.hash (hashes cs)))
      (foldl-NewPinned (pin_new s c) cs later (pin_new-Accounts s c absent a))

abbrev pub as_pinned : Option ChunkEntry → Option ChunkEntry
as_pinned none = none
as_pinned (some entry) = some (pinned_entry entry.bytes)

pub record CachedPinned (s : ChunkStorage) (hs : List ChunkHash) (r : ChunkStorage) : Type 0 where
  pub accounts : Accounts r
  pub entries :
      (h : ChunkHash)
      → Map.get h r.chunks
        ≡ (if mem h hs then as_pinned (Map.get h s.chunks) else Map.get h s.chunks)
  pub pinned_bytes : r.pinned_bytes ≡ s.pinned_bytes + held_size s hs
  pub cached_bytes : r.cached_bytes ≤ s.cached_bytes
  pub max_pinned_bytes : r.max_pinned_bytes ≡ s.max_pinned_bytes
  pub max_cached_bytes : r.max_cached_bytes ≡ s.max_cached_bytes

pub held_size-congr :
    (s t : ChunkStorage) (hs : List ChunkHash)
    → ((h : ChunkHash)
        → mem h hs ≡ true
        → size_of (Map.get h s.chunks) ≡ size_of (Map.get h t.chunks))
    → held_size s hs ≡ held_size t hs
held_size-congr s t [] same = refl
held_size-congr s t (k ∷ hs) same =
    let rest : (h : ChunkHash)
        → mem h hs ≡ true
        → size_of (Map.get h s.chunks) ≡ size_of (Map.get h t.chunks) =
      λ h m. same h (ground arith) in
    omega (arith, same k (ground arith), held_size-congr s t hs rest)

pub Map-get-pin_entry :
    (s : ChunkStorage) (hash : ChunkHash) (entry : ChunkEntry) (h : ChunkHash)
    → Map.get h (pin_entry s hash entry).chunks
      ≡ (if h == hash then some (pinned_entry entry.bytes) else Map.get h s.chunks)
unfolding pin_entry
Map-get-pin_entry s hash entry h = Map.get-insert hash h (pinned_entry entry.bytes) s.chunks

pub cached_bytes-pin_entry :
    (s : ChunkStorage) (hash : ChunkHash) (entry : ChunkEntry)
    → Map.get hash s.chunks ≡ some entry
    → entry.pinned ≡ false
    → Accounts s
    → (pin_entry s hash entry).cached_bytes ≤ s.cached_bytes
unfolding pin_entry
cached_bytes-pin_entry s hash entry held cached a =
    ground (arith, Map.total-insert cached_size hash (pinned_entry entry.bytes) s.chunks, a.cached)

pub pin_entry_frame :
    (s : ChunkStorage) (hash : ChunkHash) (entry : ChunkEntry)
    → ((pin_entry s hash entry).pinned_bytes ≡ s.pinned_bytes + length entry.bytes)
      × ((pin_entry s hash entry).max_pinned_bytes ≡ s.max_pinned_bytes)
      × ((pin_entry s hash entry).max_cached_bytes ≡ s.max_cached_bytes)
unfolding pin_entry
pin_entry_frame s hash entry = (refl, refl, refl)

CachedPinned-cons :
    (s : ChunkStorage) (k : ChunkHash) (hs : List ChunkHash) (entry : ChunkEntry) (r : ChunkStorage)
    → Map.get k s.chunks ≡ some entry
    → entry.pinned ≡ false
    → count k hs ≡ 0
    → Accounts s
    → CachedPinned (pin_entry s k entry) hs r
    → CachedPinned s (k ∷ hs) r
CachedPinned-cons s k hs entry r held cached once a p =
    let frame = pin_entry_frame s k entry in
    let same : held_size (pin_entry s k entry) hs ≡ held_size s hs =
      held_size-congr (pin_entry s k entry) s hs
        (λ h m. ground (arith, Map-get-pin_entry s k entry h, held)) in
    record {
      accounts = p.accounts;
      entries = λ h.
          ground (arith, p.entries h, Map-get-pin_entry s k entry h, mem-eq-false k hs once, held);
      pinned_bytes = ground (arith, p.pinned_bytes, frame.0, same, held);
      cached_bytes = omega (arith, p.cached_bytes, cached_bytes-pin_entry s k entry held cached a);
      max_pinned_bytes = cc (p.max_pinned_bytes, frame.1);
      max_cached_bytes = cc (p.max_cached_bytes, frame.2);
    }

pin_cached-cons :
    (s : ChunkStorage) (k : ChunkHash) (hs : List ChunkHash) (entry : ChunkEntry)
    → Map.get k s.chunks ≡ some entry
    → pin_cached s (k ∷ hs) ≡ pin_cached (pin_entry s k entry) hs
unfolding pin_cached
pin_cached-cons s k hs entry held = rw (held, pin_cached)

pub pin_cached-CachedPinned :
    (s : ChunkStorage) (hs : List ChunkHash)
    → ((h : ChunkHash) → count h hs ≤ cached_flag (Map.get h s.chunks))
    → Accounts s
    → (r : ChunkStorage) × (pin_cached s hs ≡ ok r) × CachedPinned s hs r
unfolding pin_cached
pin_cached-CachedPinned s [] once a = (
  s,
  refl,
  record {
    accounts = a;
    entries = λ h. refl;
    pinned_bytes = omega arith;
    cached_bytes = omega arith;
    max_pinned_bytes = refl;
    max_cached_bytes = refl;
  },
)
pin_cached-CachedPinned s (k ∷ hs) once a = elim (Option-cases (Map.get k s.chunks)) [
  | inl absent ↦ absurd (ground (arith, once k, count-cons k k hs))
  | inr (entry, held) ↦
      let cached : entry.pinned ≡ false = ground (arith, once k, count-cons k k hs) in
      let later : (h : ChunkHash)
          → count h hs ≤ cached_flag (Map.get h (pin_entry s k entry).chunks) =
        λ h. ground (arith, once h, once k, count-cons h k hs, Map-get-pin_entry s k entry h) in
      let (r, done, p) =
        pin_cached-CachedPinned (pin_entry s k entry) hs later
          (pin_entry-Accounts s k entry held cached a) in
      (
        r,
        pin_cached-cons s k hs entry held ∙ done,
        CachedPinned-cons s k hs entry r held cached (ground (arith, once k, count-cons k k hs)) a
            p,
      )
]
