-- ===== src/Network/Replication/Rounds.antt =====
-- src/network/handlers/replication.rs: the rounds of `rebalance`.
use edfs.Config.{max_fetches_per_rebalance}
use edfs.Crates.{Crates, PeerId}
use edfs.Domain.{ChunkHash}
use edfs.Network.Channel.{CommandChannel}
use edfs.Network.Replication.{designated_holders}
use edfs.Network.Replication.Handling.{Round, rebalance_one, is_skipped, promote, issue}
use edfs.Network.Swarm.{Libp2p}
use edfs.Prelude.{
  ℕ, ◌≡◌, true, false, leb, Option, none, some, List, mem, arith, Bool-cases, inl, inr,
}
use edfs.Storage

module _ (crates : Crates) (net : Libp2p) (chan : CommandChannel) where
  -- The ways a round goes.
  pub data RoundStep (me : PeerId) (members : List PeerId) (now : ℕ) (hash : ChunkHash)
      (r : Round crates net chan) : Option (Round crates net chan) → Type 0 where
    skipped : RoundStep me members now hash r (some r)
    promoted : RoundStep me members now hash r (some (promote crates net chan now hash r))
    full : RoundStep me members now hash r none
    issued :
        mem me (designated_holders crates net hash members) ≡ true
        → Storage.contains r.filesystem.storage hash ≡ false
        → leb max_fetches_per_rebalance r.issued ≡ false
        → RoundStep me members now hash r (some (issue crates net chan hash r))

  -- A chunk that is neither pinned nor cached is not held.
  pub not_held :
      (s : Storage.ChunkStorage) (hash : ChunkHash)
      → Storage.is_pinned s hash ≡ false
      → Storage.is_cached s hash ≡ false
      → Storage.contains s hash ≡ false
  unfolding Storage.is_pinned Storage.is_cached Storage.contains
  not_held s hash p c = ground arith

  pub rebalance_one-RoundStep :
      (me : PeerId) (members : List PeerId) (now : ℕ) (hash : ChunkHash) (r : Round crates net chan)
      → RoundStep me members now hash r (rebalance_one crates net chan me members now hash r)
  unfolding rebalance_one
  rebalance_one-RoundStep me members now hash r =
      elim (Bool-cases (is_skipped crates net chan me members now hash r)) [
        | inl s ↦ rw (rebalance_one, s) skipped
        | inr s ↦ elim (Bool-cases (Storage.is_cached r.filesystem.storage hash)) [
          | inl c ↦ rw (rebalance_one, s, c) promoted
          | inr c ↦ elim (Bool-cases (leb max_fetches_per_rebalance r.issued)) [
            | inl l ↦ rw (rebalance_one, s, c, l) full
            | inr l ↦
                rw (rebalance_one, s, c, l)
                  (issued (ground arith) (ground (arith, not_held r.filesystem.storage hash)) l)
          ]
        ]
      ]
