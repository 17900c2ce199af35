-- ===== src/Storage/History.antt =====
-- Every storage that calls of its methods reach: valid, and addressed by content.
use edfs.Domain.{Bytes, ChunkHash, Chunk, new_chunk}
use edfs.Prelude.Map
use edfs.Prelude.{
  ℕ, ◌≡◌, refl, false, Option, none, some, List, [], ◌∷◌, map, subst, ◌≢◌, arith, ltb, Bool-cases,
  inl, inr, Result, ok, err, panic,
}
use edfs.Storage
use edfs.Storage.{ChunkEntry, ChunkStorage, StorageError, storage_full, new, try_pin}
use edfs.Storage.Accounts.{IsValid, new-IsValid}
use edfs.Storage.Caching.{Cached, skipped, added, cache-Cached, cache-IsValid}
use edfs.Storage.Access.{
  bytes_of, get_lem, get-IsValid, promote_to_pinned-IsValid, promote_to_pinned-Answered, evict_lem,
  evict-IsValid,
}
use edfs.Storage.Pinning.{first_with}
use edfs.Storage.Pinning.Loops.{entry_after, AllPinned, try_pin-AllPinned}

pub data Call : Type 0 where
  pin : List Bytes → Call
  cache : Bytes → Call
  get promote evict : ChunkHash → Call

AllPinned-IsValid :
    {s r : ChunkStorage} {chunks : List Chunk}
    → IsValid s
    → AllPinned s chunks r
    → ltb s.max_pinned_bytes r.pinned_bytes ≡ false
    → IsValid r
AllPinned-IsValid v p fits = record {
  accounts = p.accounts;
  pinned_within = ground (arith, p.max_pinned_bytes);
  cached_within = omega (arith, v.cached_within, p.cached_bytes, p.max_cached_bytes);
}

-- The storage that a successful pin returns is valid and holds all of the chunks.
pub try_pin-ok :
    (s : ChunkStorage) (chunks : List Chunk) {r : ChunkStorage}
    → IsValid s
    → try_pin s chunks ≡ ok r
    → IsValid r × AllPinned s chunks r
try_pin-ok s chunks {r} v done =
    let (r', p, e) = try_pin-AllPinned s chunks v in
    elim (Bool-cases (ltb s.max_pinned_bytes r'.pinned_bytes)) [
      | inl over ↦ absurd (ground arith)
      | inr fits ↦
          let same : r' ≡ r = ground arith in
          subst (λ t. IsValid t × AllPinned s chunks t) same (AllPinned-IsValid v p fits, p)
    ]

pub try_pin-ne-panic :
    (s : ChunkStorage) (chunks : List Chunk) → IsValid s → try_pin s chunks ≢ panic
try_pin-ne-panic s chunks v p = let (r, _, e) = try_pin-AllPinned s chunks v in ground arith

-- The result of `try_pin` as a next state: a refusal leaves the storage as it was.
abbrev pub after_pin : ChunkStorage → Result StorageError ChunkStorage → Option ChunkStorage
after_pin s (ok r) = some r
after_pin s (err e) = some s
after_pin s panic = none

module _ (digest : Bytes → ChunkHash) where
  abbrev pub Addressed : Option Bytes → ChunkHash → Type 0
  Addressed none h = Unit
  Addressed (some bytes) h = digest bytes ≡ h

  -- The contents of every entry hash to its key.
  abbrev pub IsAddressed : ChunkStorage → Type 0
  IsAddressed s = (h : ChunkHash) → Addressed (bytes_of (Map.get h s.chunks)) h

  -- `none` if a method panics.
  unfoldable pub step : ChunkStorage → Call → Option ChunkStorage
  step s (pin contents) = after_pin s (try_pin s (map (new_chunk digest) contents))
  step s (cache bytes) = some (Storage.cache s (new_chunk digest bytes))
  step s (get hash) = some (Storage.get s hash).0
  step s (promote hash) = some (Storage.promote_to_pinned s hash).0
  step s (evict hash) = some (Storage.evict s hash).0

  unfoldable pub run : ChunkStorage → List Call → Option ChunkStorage
  run s [] = some s
  run s (call ∷ calls) = elim (step s call) [ none ↦ none | some s' ↦ run s' calls ]

  Addressed-first_with :
      (h : ChunkHash) (contents : List Bytes)
      → Addressed (first_with h (map (new_chunk digest) contents)) h
  Addressed-first_with h [] = tt
  Addressed-first_with h (bytes ∷ contents) = ground (arith, Addressed-first_with h contents)

  Addressed-entry_after :
      (h : ChunkHash) (held : Option ChunkEntry) (found : Option Bytes)
      → Addressed (bytes_of held) h
      → Addressed found h
      → Addressed (bytes_of (entry_after held found)) h
  Addressed-entry_after h none none a b = tt
  Addressed-entry_after h none (some bytes) a b = b
  Addressed-entry_after h (some entry) none a b = a
  Addressed-entry_after h (some entry) (some bytes) a b = a

  AllPinned-IsAddressed :
      (s r : ChunkStorage) (contents : List Bytes)
      → IsAddressed s
      → AllPinned s (map (new_chunk digest) contents) r
      → IsAddressed r
  AllPinned-IsAddressed s r contents a p h =
      rw (p.entries h)
        (Addressed-entry_after h (Map.get h s.chunks) _ (a h) (Addressed-first_with h contents))

  Cached-IsAddressed :
      (s r : ChunkStorage) (bytes : Bytes)
      → IsAddressed s
      → Cached s (new_chunk digest bytes) r
      → IsAddressed r
  Cached-IsAddressed s r bytes a (skipped why e) h = rw e (a h)
  Cached-IsAddressed s r bytes a (added victims kept fresh fits order back entries frugal) h =
      rw (entries h) (ground (arith, a h))

  pub record IsSound (s : ChunkStorage) : Type 0 where
    pub valid : IsValid s
    pub addressed : IsAddressed s

  pub step-IsSound :
      (s : ChunkStorage) (call : Call)
      → IsSound s
      → (r : ChunkStorage) × (step s call ≡ some r) × IsSound r
  unfolding step
  step-IsSound s (pin contents) v =
      let chunks : List Chunk = map (new_chunk digest) contents in
      let (r, p, e) = try_pin-AllPinned s chunks v.valid in
      elim (Bool-cases (ltb s.max_pinned_bytes r.pinned_bytes)) [
        | inl over ↦ (s, ground arith, v)
        | inr fits ↦ (
          r,
          ground arith,
          record {
            valid = AllPinned-IsValid v.valid p fits;
            addressed = AllPinned-IsAddressed s r contents v.addressed p;
          },
        )
      ]
  step-IsSound s (cache bytes) v =
      let chunk : Chunk = new_chunk digest bytes in
      (
        Storage.cache s chunk,
        refl,
        record {
          valid = cache-IsValid s chunk v.valid;
          addressed = Cached-IsAddressed s _ bytes v.addressed (cache-Cached s chunk v.valid);
        },
      )
  step-IsSound s (get hash) v = (
    (Storage.get s hash).0,
    refl,
    record {
      valid = get-IsValid s hash v.valid;
      addressed = λ h. rw ((get_lem s hash).1) (v.addressed h);
    },
  )
  step-IsSound s (promote hash) v = (
    (Storage.promote_to_pinned s hash).0,
    refl,
    record {
      valid = promote_to_pinned-IsValid s hash v.valid;
      addressed = λ h. rw ((promote_to_pinned-Answered s hash).2 h) (v.addressed h);
    },
  )
  step-IsSound s (evict hash) v = (
    (Storage.evict s hash).0,
    refl,
    record {
      valid = evict-IsValid s hash v.valid;
      addressed = λ h. rw ((evict_lem s hash).1 h) (ground (arith, v.addressed h));
    },
  )

  pub run-IsSound_from :
      (calls : List Call) (s : ChunkStorage)
      → IsSound s
      → (r : ChunkStorage) × (run s calls ≡ some r) × IsSound r
  unfolding run
  run-IsSound_from [] s v = (s, refl, v)
  run-IsSound_from (call ∷ calls) s v =
      let (s', stepped, v') = step-IsSound s call v in
      let (r, ran, sound) = run-IsSound_from calls s' v' in (r, rw (stepped, run) ran, sound)

  pub new-IsSound : (n : ℕ) → IsSound (new n)
  unfolding new
  new-IsSound n = record { valid = new-IsValid n; addressed = λ h. rw Map.get-nil tt }

  -- Whatever calls are made on a new storage, none of them panics, and the storage they reach is
  -- valid (its byte counts are those of its entries and within their limits, no hash has two
  -- entries, and the queue holds exactly the hashes of the cached chunks, each once) and addressed
  -- by content.
  pub run-IsSound :
      (capacity : ℕ) (calls : List Call)
      → (r : ChunkStorage) × (run (new capacity) calls ≡ some r) × IsSound r
  run-IsSound capacity calls = run-IsSound_from calls (new capacity) (new-IsSound capacity)
