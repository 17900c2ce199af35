-- ===== src/Network/Dispatcher.antt =====
-- src/network/dispatcher.rs: `Dispatcher`, which gives each event to all handlers and then lets each of
-- them tick, with the handlers of src/app.rs in their order. `none` stands for a panic, or for a search
-- that ran out of fuel.
pub mod Quiet
pub mod Local
pub mod Probes
pub mod Histories
pub mod Runs
use edfs.Crates.{Crates, NodeOperation}
use edfs.Network.Channel.{CommandChannel}
use edfs.Network.Exchange.{SyncHandler, mdns_handle, gossip_handle, sync_handle, sync_tick}
use edfs.Network.Fetcher
use edfs.Network.Fetcher.{ChunkFetcher, Ctx}
use edfs.Network.Fetcher.Responses
use edfs.Network.Protocol.{
  Event, SwarmEvent, SwarmCommand, Request, pull_chunk, check_chunks, pull_missing_operations,
  request, command, fetch_command, tick_event, from_command, from_swarm_event,
}
use edfs.Network.Replication.{ReplicationHandler}
use edfs.Network.Replication.Handling
use edfs.Network.Replication.Handling.{Handler}
use edfs.Network.Swarm.{Libp2p}
use edfs.Prelude.{ℕ, Option, none, some, ◌⊎◌, inl, inr}

-- What `select!` chose: the next command (`None` where the channel is closed), the next event of the
-- swarm, or the end of the sleep.
pub data Selected : Type 0 where
  received : Option SwarmCommand → Selected
  selected : SwarmEvent → Selected
  slept : Selected

pub data DispatchError : Type 0 where
  command_channel_unavailable : DispatchError

-- The event of a tick, or the error that it ends with.
abbrev pub event_of : Selected → DispatchError ⊎ Event
event_of (received (some c)) = inr (from_command c)
event_of (received none) = inl command_channel_unavailable
event_of (selected e) = inr (from_swarm_event e)
event_of slept = inr tick_event

-- The event once `SyncHandler` and once `ChunkHandler` has handled it: a reply that was taken is gone.
abbrev pub left_by_sync : Event → Event
left_by_sync (request (pull_missing_operations known_ids) reply) =
    request (pull_missing_operations known_ids) none
left_by_sync e = e

abbrev pub left_by_chunks : Event → Event
left_by_chunks (command (fetch_command hash reply pin)) = command (fetch_command hash none pin)
left_by_chunks (request (pull_chunk hash) reply) = request (pull_chunk hash) none
left_by_chunks e = e

-- The handlers with a state of their own.
pub record Handlers (Sender : Type 0) : Type 0 where
  pub sync : SyncHandler
  pub chunks : ChunkFetcher
  pub replication : ReplicationHandler Sender

-- What a tick takes from outside: fuel for the searches, readings of the clock, and randomness.
pub record Outside : Type 0 where
  pub fuel : ℕ
  pub now : ℕ
  pub now_at : NodeOperation → ℕ
  pub random : ℕ → ℕ

module _ (crates : Crates) (net : Libp2p) (chan : CommandChannel) where
  open chan use {Sender}

  abbrev pub State : Type 0
  State = Handlers Sender × Ctx crates net

  -- The stateless handlers and `SyncHandler`, which come first.
  abbrev pub exchange : Outside → Event → Ctx crates net → Ctx crates net
  exchange o e ctx =
      sync_handle crates net o.now_at e
        (gossip_handle crates net o.now_at e (mdns_handle crates net e ctx))

  unfoldable pub handle_replication : Outside → Event → State → Option State
  handle_replication o e (hs, ctx) =
      elim (Handling.handle crates net chan o.fuel o.now e hs.replication ctx) [
        | none ↦ none
        | some (replication, ctx') ↦ some (record hs { replication = replication }, ctx')
      ]

  unfoldable pub handle_chunks : Outside → Event → State → Option State
  handle_chunks o e (hs, ctx) = elim (Responses.handle crates net o.now e hs.chunks ctx) [
    | none ↦ none
    | some (chunks, ctx') ↦ some (record hs { chunks = chunks }, ctx')
  ]

  -- The first loop, over `handle`.
  unfoldable pub handle_all : Outside → Event → State → Option State
  handle_all o e (hs, ctx) = elim (handle_chunks o (left_by_sync e) (hs, exchange o e ctx)) [
    | none ↦ none
    | some state ↦ handle_replication o (left_by_chunks (left_by_sync e)) state
  ]

  unfoldable pub tick_sync : Outside → State → Option State
  tick_sync o (hs, ctx) = elim (sync_tick crates net o.now o.random hs.sync ctx) [
    | none ↦ none
    | some (sync, ctx') ↦ some (record hs { sync = sync }, ctx')
  ]

  unfoldable pub tick_replication : Outside → State → Option State
  tick_replication o (hs, ctx) =
      elim (Handling.tick crates net chan o.fuel o.now hs.replication ctx) [
        | none ↦ none
        | some (replication, ctx') ↦ some (record hs { replication = replication }, ctx')
      ]

  -- The second loop, over `tick`; the other handlers have the empty one of the trait.
  unfoldable pub tick_all : Outside → State → Option State
  tick_all o state = elim (tick_sync o state) [
    | none ↦ none
    | some state' ↦ tick_replication o state'
  ]

  unfoldable pub dispatch : Outside → Event → State → Option State
  dispatch o e state = elim (handle_all o e state) [ none ↦ none | some state' ↦ tick_all o state' ]

  -- `Dispatcher::tick`.
  abbrev pub ticked : Outside → DispatchError ⊎ Event → State → Option (DispatchError ⊎ State)
  ticked o (inl e) state = some (inl e)
  ticked o (inr e) state = elim (dispatch o e state) [
    | none ↦ none
    | some state' ↦ some (inr state')
  ]

  unfoldable pub tick : Outside → Selected → State → Option (DispatchError ⊎ State)
  tick o s state = ticked o (event_of s) state
