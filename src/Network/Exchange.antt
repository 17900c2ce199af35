-- ===== src/Network/Exchange.antt =====
-- src/network/handlers/tree_sync.rs, gossip.rs and mdns.rs: the handlers that exchange operations on the
-- tree, and the one that connects to peers. A call that reads the clock takes its value as `now`.
pub mod Agreement
use edfs.Crates.{Crates, NodeOperation, PeerId}
use edfs.Domain.{Bytes}
use edfs.FileSystem.{FileSystem}
use edfs.FileSystem.Chunks.{operation_ids, operations_missing_from}
use edfs.FileSystem.Chunks
use edfs.Network.Fetcher.{Ctx}
use edfs.Network.Protocol.{
  pull_missing_operations, missing_operations, broadcast_operations, Event, command, request,
  response, gossip, swarm_event, connection_established, discovered, ResponseChannel,
}
use edfs.Network.Swarm.{Libp2p}
use edfs.Tree.{NodeOperationId}
use edfs.Prelude.{
  ℕ, zero, suc, ◌-◌, ◌==◌, ◌||◌, leb, Option, none, some, List, [], ◌∷◌, length, mem, if◌then◌else◌,
}

-- In milliseconds.
abbrev pub sync_interval : ℕ
sync_interval = 15_000

pub record SyncHandler : Type 0 where
  pub last_sync : ℕ

-- `peers[index]`, `none` out of range.
abbrev pub peer_at : List PeerId → ℕ → Option PeerId
peer_at [] n = none
peer_at (peer ∷ peers) zero = some peer
peer_at (peer ∷ peers) (suc n) = peer_at peers n

module _ (crates : Crates) (net : Libp2p) where
  open crates use {Replica}
  open net use {
    Swarm, local_peer_id, connected_peers, send_request, send_response, publish, dial, encode,
    decode,
  }

  unfoldable pub synchronize_with : PeerId → Ctx crates net → Ctx crates net
  synchronize_with peer_id ctx =
      let known_ids : List NodeOperationId = operation_ids crates ctx.filesystem in
      record ctx { swarm = (send_request ctx.swarm peer_id (pull_missing_operations known_ids)).1 }

  -- `SyncHandler::apply_operations`.
  unfoldable pub apply_operations :
      (NodeOperation → ℕ) → FileSystem Replica → List NodeOperation → FileSystem Replica
  apply_operations now fs [] = fs
  apply_operations now fs (o ∷ operations) = Chunks.apply_operations crates now fs (o ∷ operations)

  -- The peer that a tick synchronizes with; `none` stands for a panic. `random` is the index that
  -- `random_range` returns for an upper bound.
  abbrev pub synchronize_at : Option PeerId → Ctx crates net → Option (Ctx crates net)
  synchronize_at none ctx = none
  synchronize_at (some peer) ctx = some (synchronize_with peer ctx)

  abbrev pub synchronize_any : (ℕ → ℕ) → List PeerId → Ctx crates net → Option (Ctx crates net)
  synchronize_any random [] ctx = some ctx
  synchronize_any random (peer ∷ peers) ctx =
      synchronize_at (peer_at (peer ∷ peers) (random (length (peer ∷ peers)))) ctx

  unfoldable pub sync_tick :
      ℕ → (ℕ → ℕ) → SyncHandler → Ctx crates net → Option (SyncHandler × Ctx crates net)
  sync_tick now random h ctx =
      if leb sync_interval (now - h.last_sync)
      then elim (synchronize_any random (connected_peers ctx.swarm) ctx) [
        | none ↦ none
        | some ctx' ↦ some (record { last_sync = now }, ctx')
      ]
      else some (h, ctx)

  unfoldable pub serve_operations :
      List NodeOperationId → ResponseChannel → Ctx crates net → Ctx crates net
  serve_operations known_ids channel ctx = record ctx {
    swarm =
        send_response ctx.swarm channel
          (missing_operations (operations_missing_from crates ctx.filesystem known_ids));
  }

  -- `SyncHandler::handle`.
  abbrev pub sync_handle : (NodeOperation → ℕ) → Event → Ctx crates net → Ctx crates net
  sync_handle now (swarm_event (connection_established peer_id established)) ctx =
      if established == 1 then synchronize_with peer_id ctx else ctx
  sync_handle now (request (pull_missing_operations known_ids) (some channel)) ctx =
      serve_operations known_ids channel ctx
  sync_handle now (response id (missing_operations operations)) ctx = record ctx {
    filesystem = apply_operations now ctx.filesystem operations;
  }
  sync_handle now _ ctx = ctx

  unfoldable pub broadcast : List NodeOperation → Ctx crates net → Ctx crates net
  broadcast operations ctx = elim (encode operations) [
    | none ↦ ctx
    | some bytes ↦ record ctx { swarm = publish ctx.swarm bytes }
  ]

  unfoldable pub apply_gossip : (NodeOperation → ℕ) → Bytes → Ctx crates net → Ctx crates net
  apply_gossip now content ctx = elim (decode content) [
    | none ↦ ctx
    | some operations ↦ record ctx {
      filesystem = Chunks.apply_operations crates now ctx.filesystem operations;
    }
  ]

  -- `GossipHandler::handle`.
  abbrev pub gossip_handle : (NodeOperation → ℕ) → Event → Ctx crates net → Ctx crates net
  gossip_handle now (command (broadcast_operations operations)) ctx = broadcast operations ctx
  gossip_handle now (gossip content) ctx = apply_gossip now content ctx
  gossip_handle now _ ctx = ctx

  -- The loop of `MdnsHandler::handle`.
  unfoldable pub dial_all : List (PeerId × ℕ) → Swarm → Swarm
  dial_all [] swarm = swarm
  dial_all ((peer_id, addr) ∷ list) swarm = dial_all list (
      if peer_id == local_peer_id swarm || mem peer_id (connected_peers swarm)
      then swarm
      else dial swarm addr)

  abbrev pub mdns_handle : Event → Ctx crates net → Ctx crates net
  mdns_handle (swarm_event (discovered list)) ctx = record ctx { swarm = dial_all list ctx.swarm }
  mdns_handle _ ctx = ctx
