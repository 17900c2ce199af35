-- ===== src/Network/Protocol.antt =====
-- src/network/protocol.rs and event.rs: the messages between peers, the commands to the swarm and
-- the events that the handlers see. A reply channel of `tokio` and a response channel of `libp2p`
-- are numbers that name them.
use edfs.Crates.{PeerId, NodeOperation}
use edfs.Domain.{Bytes, ChunkHash}
use edfs.Tree.{NodeOperationId}
use edfs.Prelude.{ℕ, Bool, Option, some, List}

pub data ProtocolError : Type 0 where
  chunk_not_found : ProtocolError

pub data Request : Type 0 where
  pull_chunk : ChunkHash → Request
  check_chunks : List ChunkHash → Request
  pull_missing_operations : List NodeOperationId → Request

pub data Response : Type 0 where
  chunk_content : Bytes → Response
  held_chunks : List ChunkHash → Response
  missing_operations : List NodeOperation → Response
  failure : ProtocolError → Response

-- `oneshot::Sender<Option<Vec<u8>>>`.
abbrev pub ChunkReply : Type 0
ChunkReply = ℕ

abbrev pub OutboundRequestId : Type 0
OutboundRequestId = ℕ

abbrev pub ResponseChannel : Type 0
ResponseChannel = ℕ

pub data SwarmCommand : Type 0 where
  broadcast_operations : List NodeOperation → SwarmCommand
  fetch_command : ChunkHash → Option ChunkReply → Bool → SwarmCommand

-- Of `SwarmEvent<BehaviourEvent>` the code looks at these: the messages of `request_response`, those
-- of `gossipsub`, the failure of a request, an established connection (with its count) and the
-- peers that mDNS has discovered.
pub data SwarmEvent : Type 0 where
  request_message : Request → ResponseChannel → SwarmEvent
  response_message : OutboundRequestId → Response → SwarmEvent
  gossip_message : Bytes → SwarmEvent
  outbound_failure : OutboundRequestId → SwarmEvent
  connection_established : PeerId → ℕ → SwarmEvent
  discovered : List (PeerId × ℕ) → SwarmEvent
  other_swarm_event : SwarmEvent

-- The reply of a request is `None` once a handler has taken it.
pub data Event : Type 0 where
  tick_event : Event
  swarm_event : SwarmEvent → Event
  request : Request → Option ResponseChannel → Event
  response : OutboundRequestId → Response → Event
  gossip : Bytes → Event
  command : SwarmCommand → Event

-- `From<SwarmEvent<BehaviourEvent>>` and `From<SwarmCommand>`.
abbrev pub from_swarm_event : SwarmEvent → Event
from_swarm_event (request_message r channel) = request r (some channel)
from_swarm_event (response_message id r) = response id r
from_swarm_event (gossip_message content) = gossip content
from_swarm_event other = swarm_event other

abbrev pub from_command : SwarmCommand → Event
from_command c = command c
