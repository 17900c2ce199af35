-- ===== src/Network/Replication.antt =====
-- src/network/handlers/replication.rs: `ReplicationHandler`, which pins the chunks that this peer is
-- to hold and evicts those that others hold: its state, and who is to hold what.
pub mod Handling
pub mod Remote
pub mod History
pub mod Rounds
pub mod Pulls
pub mod Steps
pub mod Eviction
use edfs.Config.{
  chunk_fetch_backoff, max_fetches_per_rebalance, max_hashes_per_probe,
  replication_eviction_interval, replication_rebalance_interval,
}
use edfs.Crates.{Crates, PeerId}
use edfs.Domain.{ChunkHash}
use edfs.FileSystem.{FileSystem}
use edfs.FileSystem.Chunks.{promote_to_pinned, evict_chunk}
use edfs.FileSystem.Reachable.{reachable_chunk_hashes}
use edfs.FileSystem.Chunks.{is_pinned}
use edfs.Hrw.{top_peers}
use edfs.Network.Channel.{CommandChannel}
use edfs.Network.Fetcher.{Ctx, is_later}
use edfs.Network.Protocol.{
  OutboundRequestId, Request, Response, check_chunks, held_chunks, SwarmCommand, fetch_command,
  Event, request, response, outbound_failure, connection_established,
}
use edfs.Network.Swarm.{Libp2p}
use edfs.Prelude.Map
use edfs.Prelude.Map.{Map}
use edfs.Prelude.{
  ℕ, ◌+◌, ◌==◌, Bool, true, false, not, ◌||◌, ◌&&◌, leb, Option, none, some, List, [], ◌∷◌, ◌++◌,
  mem, length, set_insert, if◌then◌else◌, chunks,
}

pub record ReplicationHandler (Sender : Type 0) : Type 0 where
  pub swarm_tx : Sender
  pub next_rebalance : ℕ
  pub next_eviction : ℕ
  pub blocked_until : Map ℕ
  pub confirmed_holders : Map (List PeerId)
  pub pending_probes : Map PeerId

-- The entry of a map of lists or of sets: `entry(key).or_default()`.
abbrev pub or_default : Option (List ℕ) → List ℕ
or_default none = []
or_default (some xs) = xs

-- `confirmed_holders.get(hash).is_some_and(|set| set.contains(&peer))`.
abbrev pub is_confirmed : PeerId → Option (List PeerId) → Bool
is_confirmed peer confirmed = mem peer (or_default confirmed)

-- `iter().all(|peer| confirmed.contains(peer))`.
unfoldable pub all_in : List PeerId → List PeerId → Bool
all_in [] confirmed = true
all_in (peer ∷ peers) confirmed = mem peer confirmed && all_in peers confirmed

-- `retain(|hash, _| candidates.contains(hash))`.
unfoldable pub retain_confirmed : List ChunkHash → Map (List PeerId) → Map (List PeerId)
retain_confirmed candidates [] = []
retain_confirmed candidates ((hash, peers) ∷ m) =
    let rest = retain_confirmed candidates m in
    if mem hash candidates then (hash, peers) ∷ rest else rest

-- The loop over the hashes that a peer holds.
unfoldable pub confirm_all : PeerId → List ChunkHash → Map (List PeerId) → Map (List PeerId)
confirm_all peer [] confirmed = confirmed
confirm_all peer (hash ∷ hashes) confirmed =
    confirm_all peer hashes
      (Map.insert hash (set_insert peer (or_default (Map.get hash confirmed))) confirmed)

-- The inner loop of the questions, over the holders of a chunk.
unfoldable pub ask_holders :
    ChunkHash → List PeerId → Map (List PeerId) → Map (List ChunkHash) → Map (List ChunkHash)
ask_holders hash [] confirmed by_holder = by_holder
ask_holders hash (peer ∷ peers) confirmed by_holder = ask_holders hash peers confirmed (
    if not (is_confirmed peer (Map.get hash confirmed))
    then Map.insert peer (or_default (Map.get peer by_holder) ++ hash ∷ []) by_holder
    else by_holder)

module _ (crates : Crates) (net : Libp2p) where
  open crates use {Replica}
  open net use {
    Swarm, local_peer_id, connected_peers, send_request, send_response, sha256, hash_bytes,
    to_bytes,
  }

  abbrev pub current_members : Swarm → List PeerId
  current_members swarm = connected_peers swarm ++ local_peer_id swarm ∷ []

  abbrev pub designated_holders : ChunkHash → List PeerId → List PeerId
  designated_holders hash members = top_peers sha256 hash_bytes to_bytes hash members 2

  -- The candidates for an eviction, by `filter`.
  unfoldable pub candidates_in :
      List ChunkHash → List PeerId → PeerId → List ChunkHash → List ChunkHash
  candidates_in reachable members peer_id [] = []
  candidates_in reachable members peer_id (hash ∷ pinned) =
      let rest = candidates_in reachable members peer_id pinned in
      if mem hash reachable && not (mem peer_id (designated_holders hash members))
      then hash ∷ rest
      else rest

  -- Whom to ask about which candidates.
  unfoldable pub questions :
      List ChunkHash → List PeerId → Map (List PeerId) → Map (List ChunkHash) → Map (List ChunkHash)
  questions [] members confirmed by_holder = by_holder
  questions (hash ∷ candidates) members confirmed by_holder =
      questions candidates members confirmed
        (ask_holders hash (designated_holders hash members) confirmed by_holder)

  -- The first loop of `evict_confirmed`.
  unfoldable pub completed_in : List ChunkHash → List PeerId → Map (List PeerId) → List ChunkHash
  completed_in live members [] = []
  completed_in live members ((hash, confirmed) ∷ m) =
      let rest = completed_in live members m in
      if mem hash live && all_in (designated_holders hash members) confirmed
      then hash ∷ rest
      else rest

  -- The probes of one peer, a request for each batch.
  unfoldable pub probe_peer :
      PeerId → List (List ChunkHash) → Swarm → Map PeerId → Swarm × Map PeerId
  probe_peer peer [] swarm pending = (swarm, pending)
  probe_peer peer (batch ∷ batches) swarm pending =
      let (id, swarm') = send_request swarm peer (check_chunks batch) in
      probe_peer peer batches swarm' (Map.insert id peer pending)

  unfoldable pub probe_all : Map (List ChunkHash) → Swarm → Map PeerId → Swarm × Map PeerId
  probe_all [] swarm pending = (swarm, pending)
  probe_all ((peer, hashes) ∷ by_holder) swarm pending =
      let (swarm', pending') = probe_peer peer (chunks max_hashes_per_probe hashes) swarm pending in
      probe_all by_holder swarm' pending'

  -- `filter(|hash| fs.is_pinned(hash))`.
  unfoldable pub held_in : FileSystem Replica → List ChunkHash → List ChunkHash
  held_in fs [] = []
  held_in fs (hash ∷ hashes) =
      let rest = held_in fs hashes in if is_pinned crates fs hash then hash ∷ rest else rest
