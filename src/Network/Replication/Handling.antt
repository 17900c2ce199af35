-- ===== src/Network/Replication/Handling.antt =====
-- src/network/handlers/replication.rs: the methods of `ReplicationHandler`. `none` stands for a search
-- that ran out of fuel. A call that reads the clock takes its value as `now`.
use edfs.Config.{
  chunk_fetch_backoff, max_fetches_per_rebalance, replication_eviction_interval,
  replication_rebalance_interval,
}
use edfs.Crates.{Crates, PeerId}
use edfs.Domain.{ChunkHash}
use edfs.FileSystem.{FileSystem}
use edfs.FileSystem.Chunks.{is_pinned, is_cached, pinned_hashes, promote_to_pinned, evict_chunk}
use edfs.FileSystem.Reachable.{reachable_chunk_hashes}
use edfs.Network.Channel.{CommandChannel}
use edfs.Network.Fetcher.{Ctx, is_later}
use edfs.Network.Protocol.{
  OutboundRequestId, check_chunks, held_chunks, fetch_command, Event, request, response,
  outbound_failure, swarm_event, connection_established,
}
use edfs.Network.Replication.{
  ReplicationHandler, retain_confirmed, confirm_all, current_members, designated_holders,
  candidates_in, questions, completed_in, probe_all, held_in,
}
use edfs.Network.Swarm.{Libp2p}
use edfs.Prelude.Map
use edfs.Prelude.Map.{Map}
use edfs.Prelude.{
  ℕ, ◌+◌, ◌==◌, Bool, true, false, not, ◌||◌, leb, Option, none, some, List, [], ◌∷◌, mem, length,
  if◌then◌else◌,
}

module _ (crates : Crates) (net : Libp2p) (chan : CommandChannel) where
  open crates use {Replica}
  open net use {local_peer_id, send_response}
  open chan use {Sender, try_send}

  abbrev pub Handler : Type 0
  Handler = ReplicationHandler Sender

  unfoldable pub new : ℕ → Sender → Handler
  new now swarm_tx = record {
    swarm_tx = swarm_tx;
    next_rebalance = now;
    next_eviction = now;
    blocked_until = [];
    confirmed_holders = [];
    pending_probes = [];
  }

  -- What the loop of `rebalance` changes.
  pub record Round : Type 0 where
    pub issued : ℕ
    pub handler : Handler
    pub filesystem : FileSystem Replica

  abbrev pub block : ℕ → ChunkHash → Bool → Handler → Handler
  block now hash true h = h
  block now hash false h = record h {
    blocked_until = Map.insert hash (now + chunk_fetch_backoff) h.blocked_until;
  }

  abbrev pub promote : ℕ → ChunkHash → Round → Round
  promote now hash r =
      let (promoted, fs) = promote_to_pinned crates r.filesystem hash in
      record r { handler = block now hash promoted r.handler; filesystem = fs }

  abbrev pub issue : ChunkHash → Round → Round
  issue hash r =
      let (queued, tx) = try_send r.handler.swarm_tx (fetch_command hash none true) in
      record r {
        handler = record r.handler { swarm_tx = tx };
        issued = if queued then r.issued + 1 else r.issued;
      }

  abbrev pub is_skipped : PeerId → List PeerId → ℕ → ChunkHash → Round → Bool
  is_skipped local members now hash r =
      not (mem local (designated_holders crates net hash members))
      || is_pinned crates r.filesystem hash
      || is_later now (Map.get hash r.handler.blocked_until)

  -- The body of the loop; `none` is `break`.
  unfoldable pub rebalance_one : PeerId → List PeerId → ℕ → ChunkHash → Round → Option Round
  rebalance_one local members now hash r =
      if is_skipped local members now hash r
      then some r
      else if is_cached crates r.filesystem hash
      then some (promote now hash r)
      else if leb max_fetches_per_rebalance r.issued
      then none
      else some (issue hash r)

  unfoldable pub rebalance_loop : PeerId → List PeerId → ℕ → List ChunkHash → Round → Round
  rebalance_loop local members now [] r = r
  rebalance_loop local members now (hash ∷ live) r = elim (rebalance_one local members now hash r) [
    | none ↦ r
    | some r' ↦ rebalance_loop local members now live r'
  ]

  abbrev pub rebalance_live :
      ℕ → Handler → Ctx crates net → List ChunkHash → Handler × Ctx crates net
  rebalance_live now h ctx live =
      let r =
        rebalance_loop (local_peer_id ctx.swarm) (current_members crates net ctx.swarm) now live
          (record { issued = 0; handler = h; filesystem = ctx.filesystem }) in
      (r.handler, record ctx { filesystem = r.filesystem })

  unfoldable pub rebalance : ℕ → ℕ → Handler → Ctx crates net → Option (Handler × Ctx crates net)
  rebalance fuel now h ctx =
      if length (current_members crates net ctx.swarm) == 1
      then some (h, ctx)
      else elim (reachable_chunk_hashes crates fuel ctx.filesystem) [
        | none ↦ none
        | some live ↦ some (rebalance_live now h ctx live)
      ]

  abbrev pub probe_candidates :
      List PeerId → List ChunkHash → Handler → Ctx crates net → Handler × Ctx crates net
  probe_candidates members [] h ctx = (record h { confirmed_holders = [] }, ctx)
  probe_candidates members (hash ∷ hashes) h ctx =
      let confirmed : Map (List PeerId) = retain_confirmed (hash ∷ hashes) h.confirmed_holders in
      let (swarm, pending) =
        probe_all crates net (questions crates net (hash ∷ hashes) members confirmed []) ctx.swarm
          h.pending_probes in
      (
        record h { confirmed_holders = confirmed; pending_probes = pending },
        record ctx { swarm = swarm },
      )

  unfoldable pub probe_eviction_candidates :
      ℕ → Handler → Ctx crates net → Option (Handler × Ctx crates net)
  probe_eviction_candidates fuel h ctx =
      let members : List PeerId = current_members crates net ctx.swarm in
      elim (reachable_chunk_hashes crates fuel ctx.filesystem) [
        | none ↦ none
        | some reachable ↦ some (
            probe_candidates members
              (candidates_in crates net reachable members (local_peer_id ctx.swarm)
                (pinned_hashes crates ctx.filesystem))
              h ctx)
      ]

  -- The second loop of `evict_confirmed`.
  unfoldable pub evict_all :
      List ChunkHash
      → Map (List PeerId)
      → FileSystem Replica
      → Map (List PeerId) × FileSystem Replica
  evict_all [] confirmed fs = (confirmed, fs)
  evict_all (hash ∷ completed) confirmed fs =
      evict_all completed (Map.remove hash confirmed)
        (if is_pinned crates fs hash then (evict_chunk crates fs hash).1 else fs)

  abbrev pub evict_live : List ChunkHash → Handler → Ctx crates net → Handler × Ctx crates net
  evict_live live h ctx =
      let (confirmed, fs) =
        evict_all
          (completed_in crates net live (current_members crates net ctx.swarm) h.confirmed_holders)
          h.confirmed_holders ctx.filesystem in
      (record h { confirmed_holders = confirmed }, record ctx { filesystem = fs })

  unfoldable pub evict_confirmed : ℕ → Handler → Ctx crates net → Option (Handler × Ctx crates net)
  evict_confirmed fuel h ctx = elim (reachable_chunk_hashes crates fuel ctx.filesystem) [
    | none ↦ none
    | some live ↦ some (evict_live live h ctx)
  ]

  -- `Response::HeldChunks`.
  unfoldable pub note_held :
      ℕ
      → OutboundRequestId
      → List ChunkHash
      → Handler
      → Ctx crates net
      → Option (Handler × Ctx crates net)
  note_held fuel id hashes h ctx = elim (Map.get id h.pending_probes) [
    | none ↦ some (h, ctx)
    | some peer ↦
        evict_confirmed fuel
          (record h {
            pending_probes = Map.remove id h.pending_probes;
            confirmed_holders = confirm_all peer hashes h.confirmed_holders;
          })
          ctx
  ]

  -- `ReplicationHandler::handle`.
  abbrev pub handle : ℕ → ℕ → Event → Handler → Ctx crates net → Option (Handler × Ctx crates net)
  handle fuel now (request (check_chunks hashes) (some channel)) h ctx = some (
    h,
    record ctx {
      swarm =
          send_response ctx.swarm channel (held_chunks (held_in crates net ctx.filesystem hashes));
    },
  )
  handle fuel now (response id (held_chunks hashes)) h ctx = note_held fuel id hashes h ctx
  handle fuel now (swarm_event (outbound_failure id)) h ctx =
      some (record h { pending_probes = Map.remove id h.pending_probes }, ctx)
  handle fuel now (swarm_event (connection_established peer established)) h ctx =
      rebalance fuel now h ctx
  handle fuel now _ h ctx = some (h, ctx)

  -- The two halves of `tick`.
  unfoldable pub tick_rebalance :
      ℕ → ℕ → Handler → Ctx crates net → Option (Handler × Ctx crates net)
  tick_rebalance fuel now h ctx =
      if leb h.next_rebalance now
      then rebalance fuel now (record h { next_rebalance = now + replication_rebalance_interval })
          ctx
      else some (h, ctx)

  unfoldable pub tick_eviction :
      ℕ → ℕ → Handler → Ctx crates net → Option (Handler × Ctx crates net)
  tick_eviction fuel now h ctx =
      if leb h.next_eviction now
      then probe_eviction_candidates fuel
          (record h { next_eviction = now + replication_eviction_interval }) ctx
      else some (h, ctx)

  unfoldable pub tick : ℕ → ℕ → Handler → Ctx crates net → Option (Handler × Ctx crates net)
  tick fuel now h ctx = elim (tick_rebalance fuel now h ctx) [
    | none ↦ none
    | some (h', ctx') ↦ tick_eviction fuel now h' ctx'
  ]
