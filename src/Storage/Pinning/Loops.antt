-- ===== src/Storage/Pinning/Loops.antt =====
-- `try_pin`: the loops that pin the new and the cached chunks, and the method as a whole.
use edfs.Domain.{Bytes, ChunkHash, Chunk}
use edfs.Prelude.Map
use edfs.Prelude.Map.{is_some}
use edfs.Prelude.{
  ◌+◌, ◌≤◌, ◌≡◌, Option, none, some, List, foldl, arith, mem-eq-false, count-eq-zero, count,
  if◌then◌else◌, ltb, ok, err,
}
use edfs.Storage.{
  storage_full, ChunkEntry, ChunkStorage, Scan, start_scan, scan_chunk, pin_new, pin_cached,
  try_pin,
}
use edfs.Storage.Accounts.{cached_flag, Accounts, IsValid}
use edfs.Storage.Pinning.{first_with, held_size, scan-IsPlan, is_some-first_with}
use edfs.Storage.Pinning.Rounds.{
  pinned_entry, NewPinned, foldl-NewPinned, CachedPinned, held_size-congr, pin_cached-CachedPinned,
}

-- The entry that a hash has after `try_pin`: one that was there is pinned if the hash was asked for,
-- and one that was not gets the contents that came first.
abbrev pub entry_after : Option ChunkEntry → Option Bytes → Option ChunkEntry
entry_after none none = none
entry_after none (some bytes) = some (pinned_entry bytes)
entry_after (some entry) none = some entry
entry_after (some entry) (some bytes) = some (pinned_entry entry.bytes)

-- All of `chunks` pinned, whatever the limit.
pub record AllPinned (s : ChunkStorage) (chunks : List Chunk) (r : ChunkStorage) : Type 0 where
  pub accounts : Accounts r
  pub entries :
      (h : ChunkHash) → Map.get h r.chunks ≡ entry_after (Map.get h s.chunks) (first_with h chunks)
  pub cached_bytes : r.cached_bytes ≤ s.cached_bytes
  pub max_pinned_bytes : r.max_pinned_bytes ≡ s.max_pinned_bytes
  pub max_cached_bytes : r.max_cached_bytes ≡ s.max_cached_bytes

module _ (s : ChunkStorage) (chunks : List Chunk) (a : Accounts s) where
  abbrev scanned : Scan
  scanned = foldl (scan_chunk s) start_scan chunks

  abbrev with_new_chunks : ChunkStorage
  with_new_chunks = foldl pin_new s scanned.new_chunks

  new_chunks_pinned : NewPinned s scanned.new_chunks with_new_chunks
  new_chunks_pinned =
      let plan = scan-IsPlan s chunks in
      foldl-NewPinned s scanned.new_chunks (λ h. ground (arith, plan.fresh h)) a

  cached_sizes : held_size with_new_chunks scanned.cached_hashes ≡ held_size s scanned.cached_hashes
  cached_sizes =
      let plan = scan-IsPlan s chunks in
      held_size-congr with_new_chunks s scanned.cached_hashes (λ h m. ground (
        arith,
        count-eq-zero h scanned.cached_hashes,
        mem-eq-false h scanned.cached_hashes,
        plan.cached h,
        plan.contents h,
        new_chunks_pinned.entries h,
      ))

  cached_once :
      (h : ChunkHash)
      → count h scanned.cached_hashes ≤ cached_flag (Map.get h with_new_chunks.chunks)
  cached_once h =
      let plan = scan-IsPlan s chunks in
      ground (arith, plan.cached h, plan.contents h, new_chunks_pinned.entries h)

  entries_after :
      (r : ChunkStorage) (h : ChunkHash)
      → CachedPinned with_new_chunks scanned.cached_hashes r
      → Map.get h r.chunks ≡ entry_after (Map.get h s.chunks) (first_with h chunks)
  entries_after r h p =
      let plan = scan-IsPlan s chunks in
      ground (
        arith,
        p.entries h,
        plan.cached h,
        plan.contents h,
        new_chunks_pinned.entries h,
        is_some-first_with h chunks,
        count-eq-zero h scanned.cached_hashes,
        mem-eq-false h scanned.cached_hashes,
      )

  pinned_all :
      (r : ChunkStorage) × (pin_cached with_new_chunks scanned.cached_hashes ≡ ok r)
      × AllPinned s chunks r
      × (r.pinned_bytes ≡ s.pinned_bytes + scanned.required_bytes)
  pinned_all =
      let plan = scan-IsPlan s chunks in
      let np = new_chunks_pinned in
      let (r, done, p) =
        pin_cached-CachedPinned with_new_chunks scanned.cached_hashes cached_once np.accounts in
      (
        r,
        done,
        record {
          accounts = p.accounts;
          entries = λ h. entries_after r h p;
          cached_bytes = omega (arith, p.cached_bytes, np.cached_bytes);
          max_pinned_bytes = cc (p.max_pinned_bytes, np.max_pinned_bytes);
          max_cached_bytes = cc (p.max_cached_bytes, np.max_cached_bytes);
        },
        omega (arith, p.pinned_bytes, np.pinned_bytes, plan.required, cached_sizes),
      )

-- `try_pin` does all or nothing, and its `unwrap` never fails: from a valid state there is a state
-- with all of the chunks pinned, in which each hash has the entry that `entry_after` says, and the
-- call returns it, or refuses if the pinned bytes there exceed the limit.
pub try_pin-AllPinned :
    (s : ChunkStorage) (chunks : List Chunk)
    → IsValid s
    → (r : ChunkStorage) × AllPinned s chunks r
      × (try_pin s chunks
          ≡ (if ltb s.max_pinned_bytes r.pinned_bytes then err storage_full else ok r))
unfolding try_pin
try_pin-AllPinned s chunks v =
    let (r, done, p, bytes) = pinned_all s chunks v.accounts in (r, p, rw (bytes, done))
