-- ===== src/Network/Swarm.antt =====
-- The swarm of `libp2p`, as a parameter: the calls that the handlers make of it.
use edfs.Crates.{PeerId, NodeOperation}
use edfs.Domain.{Bytes, ChunkHash}
use edfs.FileSystem.{FileSystem}
use edfs.Network.Protocol.{Request, Response, ChunkReply, OutboundRequestId, ResponseChannel}
use edfs.Prelude.{ℕ, ◌≡◌, Bool, false, ◌||◌, ◌==◌, Option, List}

pub record Libp2p : Type 1 where
  pub Swarm : Type 0
  pub local_peer_id : Swarm → PeerId
  pub connected_peers : Swarm → List PeerId
  pub send_request : Swarm → PeerId → Request → OutboundRequestId × Swarm
  -- The results of these three are dropped by the callers, or only logged.
  pub send_response : Swarm → ResponseChannel → Response → Swarm
  pub publish : Swarm → Bytes → Swarm
  pub dial : Swarm → ℕ → Swarm
  -- `Sha256::digest` as bytes, `ChunkHash::as_bytes` and `PeerId::to_bytes`, for `hrw_score`.
  pub sha256 : Bytes → Bytes
  pub hash_bytes : ChunkHash → Bytes
  pub to_bytes : PeerId → Bytes
  -- `bincode`, on the operations of a gossip message.
  pub encode : List NodeOperation → Option Bytes
  pub decode : Bytes → Option (List NodeOperation)

-- What the documentation of `libp2p` promises of `send_request`: the identifier is not that of any
-- request made before, and the call neither opens nor closes a connection; and that no call changes
-- the peer's own name.
pub record SwarmLaws (net : Libp2p) : Type 0 where
  pub is_issued : net.Swarm → OutboundRequestId → Bool
  pub issued-send_request :
      (s : net.Swarm) (peer : PeerId) (r : Request) (id : OutboundRequestId)
      → is_issued (net.send_request s peer r).1 id
        ≡ (id == (net.send_request s peer r).0 || is_issued s id)
  pub send_request_fresh :
      (s : net.Swarm) (peer : PeerId) (r : Request)
      → is_issued s (net.send_request s peer r).0 ≡ false
  -- `send_response`, `publish` and `dial` make no request of `request_response`.
  pub issued-publish :
      (s : net.Swarm) (bytes : Bytes) (id : OutboundRequestId)
      → is_issued (net.publish s bytes) id ≡ is_issued s id
  pub issued-dial :
      (s : net.Swarm) (addr : ℕ) (id : OutboundRequestId)
      → is_issued (net.dial s addr) id ≡ is_issued s id
  pub local-publish :
      (s : net.Swarm) (bytes : Bytes)
      → net.local_peer_id (net.publish s bytes) ≡ net.local_peer_id s
  pub local-dial :
      (s : net.Swarm) (addr : ℕ) → net.local_peer_id (net.dial s addr) ≡ net.local_peer_id s
  pub issued-send_response :
      (s : net.Swarm) (c : ResponseChannel) (r : Response) (id : OutboundRequestId)
      → is_issued (net.send_response s c r) id ≡ is_issued s id
  pub connected-send_request :
      (s : net.Swarm) (peer : PeerId) (r : Request)
      → net.connected_peers (net.send_request s peer r).1 ≡ net.connected_peers s
  pub local-send_request :
      (s : net.Swarm) (peer : PeerId) (r : Request)
      → net.local_peer_id (net.send_request s peer r).1 ≡ net.local_peer_id s
  pub local-send_response :
      (s : net.Swarm) (c : ResponseChannel) (r : Response)
      → net.local_peer_id (net.send_response s c r) ≡ net.local_peer_id s

-- `EventContext`, with the answers that were sent through reply channels, oldest first.
pub record EventContext (Swarm Replica : Type 0) : Type 0 where
  pub swarm : Swarm
  pub filesystem : FileSystem Replica
  pub answered : List (ChunkReply × Option Bytes)
