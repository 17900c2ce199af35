-- ===== src/Storage/Durability.antt =====
-- A pinned chunk stays, with its contents, until `evict` is called on its hash.
use mathlib.Core.Option.{some-injective}
use edfs.Domain.{Bytes, ChunkHash, Chunk, new_chunk}
use edfs.Prelude.Map
use edfs.Prelude.{
  ◌≡◌, ◌≢◌, refl, ◌∙◌, sym, subst, Option, some, List, [], ◌∷◌, arith, All, Option-cases, inl, inr,
}
use edfs.Storage
use edfs.Storage.{ChunkEntry, ChunkStorage, try_pin}
use edfs.Storage.Accounts.{IsValid}
use edfs.Storage.Access.{get_lem, evict_lem}
use edfs.Storage.Caching.{cache_keeps_pinned}
use edfs.Storage.Pinning.Loops.{entry_after, try_pin-AllPinned}
use edfs.Storage.Pinning.Rounds.{pinned_entry, Map-get-pin_entry}
use edfs.Storage.History.{
  Call, pin, cache, get, promote, evict, step, run, IsSound, step-IsSound, after_pin,
}

abbrev pub Spares : ChunkHash → Call → Type 0
Spares h (evict k) = k ≢ h
Spares h _ = Unit

abbrev pub HasPinned : ChunkHash → Bytes → ChunkStorage → Type 0
HasPinned h bytes s = Map.get h s.chunks ≡ some (pinned_entry bytes)

module _ (h : ChunkHash) (bytes : Bytes) where
  entry_after-pinned :
      (held : Option ChunkEntry) (found : Option Bytes)
      → held ≡ some (pinned_entry bytes)
      → entry_after held found ≡ some (pinned_entry bytes)
  entry_after-pinned held found e = ground arith

  try_pin_keeps :
      (s r : ChunkStorage) (chunks : List Chunk)
      → IsValid s
      → after_pin s (try_pin s chunks) ≡ some r
      → HasPinned h bytes s
      → HasPinned h bytes r
  try_pin_keeps s r chunks v e held =
      let (t, p, done) = try_pin-AllPinned s chunks v in
      let kept : HasPinned h bytes t = p.entries h ∙ entry_after-pinned _ _ held in ground arith

  promote_keeps :
      (s : ChunkStorage) (k : ChunkHash)
      → HasPinned h bytes s
      → HasPinned h bytes (Storage.promote_to_pinned s k).0
  unfolding Storage.promote_to_pinned
  promote_keeps s k held = elim (Option-cases (Map.get k s.chunks)) [
    | inl absent ↦ ground arith
    | inr (entry, other) ↦ ground (arith, Map-get-pin_entry s k entry h)
  ]

module _ (digest : Bytes → ChunkHash) (h : ChunkHash) (bytes : Bytes) where
  step_keeps :
      (s r : ChunkStorage) (call : Call)
      → IsValid s
      → Spares h call
      → step digest s call ≡ some r
      → HasPinned h bytes s
      → HasPinned h bytes r
  unfolding step
  step_keeps s r (pin contents) v spared e held = try_pin_keeps h bytes s r _ v e held
  step_keeps s r (cache contents) v spared e held =
      subst (HasPinned h bytes) (some-injective _ _ e)
        (cache_keeps_pinned s (new_chunk digest contents) h (pinned_entry bytes) v held refl)
  step_keeps s r (get k) v spared e held =
      subst (HasPinned h bytes) (some-injective _ _ e) (rw ((get_lem s k).1) held)
  step_keeps s r (promote k) v spared e held =
      subst (HasPinned h bytes) (some-injective _ _ e) (promote_keeps h bytes s k held)
  step_keeps s r (evict k) v spared e held =
      subst (HasPinned h bytes) (some-injective _ _ e)
        (let after = (evict_lem s k).1 h in ground (arith, λ (p : h ≡ k). spared (sym p)))

  -- From a sound storage, a chunk that is pinned is still pinned, with the same contents, after any
  -- calls that do not evict its hash: no pin, no caching, no read and no promotion of other chunks
  -- displaces it.
  pub run_keeps_pinned :
      (calls : List Call) (s r : ChunkStorage)
      → IsSound digest s
      → All (Spares h) calls
      → run digest s calls ≡ some r
      → HasPinned h bytes s
      → HasPinned h bytes r
  unfolding run
  run_keeps_pinned [] s r v spared e held = subst (HasPinned h bytes) (some-injective _ _ e) held
  run_keeps_pinned (call ∷ calls) s r v spared e held =
      let (s', stepped, v') = step-IsSound digest s call v in
      run_keeps_pinned calls s' r v' spared.1 (rw (stepped, run) at e)
        (step_keeps s s' call v.valid spared.0 stepped held)
