-- ===== src/Network/Bridge.antt =====
-- src/network/network_bridge.rs: `NetworkBridge`, which gathers the operations that the file system
-- broadcasts into commands, and passes on its questions for chunks.
pub mod Batches
use edfs.Crates.{NodeOperation}
use edfs.Domain.{Bytes, ChunkHash}
use edfs.Network.Channel.{CommandChannel}
use edfs.Network.Protocol.{ChunkReply, SwarmCommand, broadcast_operations, fetch_command}
use edfs.Prelude.{
  ℕ, zero, suc, ◌+◌, Bool, true, false, ltb, min, Option, none, some, List, [], ◌∷◌, ◌++◌, length,
  take, drop, if◌then◌else◌,
}

abbrev pub max_batch_operations : ℕ
max_batch_operations = 64

-- What wakes the task that gathers: operations from its channel, or the deadline of a batch.
pub data Arrival : Type 0 where
  arrived : List NodeOperation → Arrival
  deadline : Arrival

-- The loop that fills a batch; it returns the batch and what wakes the task later. A batch that the
-- last arrival leaves open ends there.
unfoldable pub gather : List NodeOperation → List Arrival → List NodeOperation × List Arrival
gather batch [] = (batch, [])
gather batch (deadline ∷ later) =
    if ltb (length batch) max_batch_operations then (batch, later) else (batch, deadline ∷ later)
gather batch (arrived operations ∷ later) =
    let fuller = gather (batch ++ operations) later in
    if ltb (length batch) max_batch_operations then fuller else (batch, arrived operations ∷ later)

module _ (chan : CommandChannel) where
  open chan use {Sender, send}

  -- The loop that sends a batch: the sender, and whether the channel was closed. The length of the
  -- batch is fuel enough; `none` stands for a loop that is cut off.
  unfoldable pub send_batch : ℕ → List NodeOperation → Sender → Option (Sender × Bool)
  send_batch fuel [] tx = some (tx, false)
  send_batch zero (o ∷ batch) tx = none
  send_batch (suc fuel) (o ∷ batch) tx =
      let count = min (length (o ∷ batch)) max_batch_operations in
      elim (send tx (broadcast_operations (take count (o ∷ batch)))) [
        | none ↦ some (tx, true)
        | some tx' ↦ send_batch fuel (drop count (o ∷ batch)) tx'
      ]

  -- The task of `new`, on all that wakes it; a deadline is armed only while a batch is gathered.
  unfoldable pub run : ℕ → List Arrival → Sender → Option (Sender × Bool)
  run fuel [] tx = some (tx, false)
  run zero (a ∷ later) tx = none
  run (suc fuel) (deadline ∷ later) tx = run fuel later tx
  run (suc fuel) (arrived first ∷ later) tx =
      let (batch, later') = gather first later in
      elim (send_batch (length batch) batch tx) [
        | none ↦ none
        | some (tx', true) ↦ some (tx', true)
        | some (tx', false) ↦ run fuel later' tx'
      ]

  -- `broadcast`: what arrives at the task.
  abbrev pub broadcast : List NodeOperation → List Arrival
  broadcast [] = []
  broadcast (o ∷ operations) = arrived (o ∷ operations) ∷ []

  -- `fetch`: the answer, from what the receiver of `reply` yields (`none` where the sender is gone).
  unfoldable pub fetch :
      Sender → ChunkHash → ChunkReply → Option (Option Bytes) → Sender × Option Bytes
  fetch tx hash reply received = elim (send tx (fetch_command hash (some reply) false)) [
    | none ↦ (tx, none)
    | some tx' ↦ elim received [ none ↦ (tx', none) | some answer ↦ (tx', answer) ]
  ]
