-- ===== src/Network/Replication/History.antt =====
-- src/network/handlers/replication.rs: a `ReplicationHandler` over the events and the ticks that it has
-- handled.
use edfs.Crates.{Crates, PeerId}
use edfs.Domain.{ChunkHash}
use edfs.Network.Channel.{CommandChannel}
use edfs.Network.Fetcher.{Ctx}
use edfs.Network.Fetcher.Handling.{Holds, Holds-some}
use edfs.Network.Protocol.{
  OutboundRequestId, pull_chunk, check_chunks, pull_missing_operations, chunk_content, held_chunks,
  missing_operations, failure, Event, command, request, response, outbound_failure, tick_event,
  connection_established, discovered, other_swarm_event, gossip, swarm_event, request_message,
  response_message, gossip_message,
}
use edfs.Network.Replication.{or_default, confirm_all, held_in}
use edfs.Network.Replication.Handling.{
  Handler, new, evict_confirmed, note_held, handle, tick_rebalance, tick_eviction, tick,
}
use edfs.Network.Replication.Remote.{confirm_all_remote, confirm_all-Distinct}
use edfs.Network.Replication.Eviction.{IsRemote, IsHeldElsewhere, evict_confirmed_safe}
use edfs.Network.Replication.Steps.{
  Kept, rebalance-Kept, probe_eviction_candidates-Kept, evict_confirmed-Kept,
}
use edfs.Network.Swarm.{Libp2p, SwarmLaws}
use edfs.Prelude.Map
use edfs.Prelude.Map.{Map, get-remove, get-nil}
use edfs.Prelude.{
  ℕ, ◌≡◌, refl, ◌==◌, ◌⊎◌, ◌+◌, false, leb, none, some, List, arith, Bool-cases, Option-cases, inl,
  inr, subst, ◌∙◌, sym,
}
use edfs.Config.{replication_eviction_interval, replication_rebalance_interval}

module _ (crates : Crates) (net : Libp2p) (chan : CommandChannel) (laws : SwarmLaws net)
    (local : PeerId) where
  -- The states of a handler on the peer `local`. Between its steps the other handlers change the swarm
  -- and the file system.
  pub data History : Handler crates net chan → Ctx crates net → Type 0 where
    start :
        (now : ℕ) (tx : chan.Sender) (ctx : Ctx crates net)
        → net.local_peer_id ctx.swarm ≡ local
        → History (new crates net chan now tx) ctx
    handled :
        (h : Handler crates net chan) (ctx : Ctx crates net) (fuel now : ℕ) (e : Event)
        (after : Handler crates net chan × Ctx crates net)
        → History h ctx
        → handle crates net chan fuel now e h ctx ≡ some after
        → History after.0 after.1
    ticked :
        (h : Handler crates net chan) (ctx : Ctx crates net) (fuel now : ℕ)
        (after : Handler crates net chan × Ctx crates net)
        → History h ctx
        → tick crates net chan fuel now h ctx ≡ some after
        → History after.0 after.1
    others :
        (h : Handler crates net chan) (ctx ctx' : Ctx crates net)
        → History h ctx
        → net.local_peer_id ctx'.swarm ≡ net.local_peer_id ctx.swarm
        → History h ctx'

  abbrev Fine : Handler crates net chan × Ctx crates net → Type 0
  Fine = Kept crates net chan laws local

  dropped-IsRemote :
      (id : OutboundRequestId) (h : Handler crates net chan)
      → IsRemote local h
      → IsRemote local (record h { pending_probes = Map.remove id h.pending_probes })
  dropped-IsRemote id h k = record {
    confirmed-Distinct = k.confirmed-Distinct;
    confirmed_remote = k.confirmed_remote;
    pending_remote = λ j. ground (arith, get-remove id j h.pending_probes, k.pending_remote j);
  }

  confirmed-IsRemote :
      (id : OutboundRequestId) (peer : PeerId) (hashes : List ChunkHash)
      (h : Handler crates net chan)
      → Map.get id h.pending_probes ≡ some peer
      → IsRemote local h
      → IsRemote local (record h {
        pending_probes = Map.remove id h.pending_probes;
        confirmed_holders = confirm_all peer hashes h.confirmed_holders;
      })
  confirmed-IsRemote id peer hashes h e k =
      let other : (peer == local) ≡ false = ground (arith, e, k.pending_remote id) in
      record {
        confirmed-Distinct =
            confirm_all-Distinct peer hashes h.confirmed_holders k.confirmed-Distinct;
        confirmed_remote = λ c.
            confirm_all_remote local peer hashes h.confirmed_holders c other (k.confirmed_remote c);
        pending_remote = λ j. ground (arith, get-remove id j h.pending_probes, k.pending_remote j);
      }

  note_held_kept :
      (fuel : ℕ) (id : OutboundRequestId) (hashes : List ChunkHash) (h : Handler crates net chan)
      (ctx : Ctx crates net)
      → Fine (h, ctx)
      → Holds Fine (note_held crates net chan fuel id hashes h ctx)
  unfolding note_held
  note_held_kept fuel id hashes h ctx k = elim (Option-cases (Map.get id h.pending_probes)) [
    | inl n ↦ rw (note_held, n) k
    | inr (peer, e) ↦
        rw (note_held, e)
          (evict_confirmed-Kept crates net chan laws local fuel _ ctx
            (confirmed-IsRemote id peer hashes h e k.0, k.1))
  ]

  handle_kept :
      (fuel now : ℕ) (e : Event) (h : Handler crates net chan) (ctx : Ctx crates net)
      → Fine (h, ctx)
      → Holds Fine (handle crates net chan fuel now e h ctx)
  handle_kept fuel now (request (check_chunks hashes) (some channel)) h ctx k = (
    k.0,
    laws.local-send_response ctx.swarm channel
          (held_chunks (held_in crates net ctx.filesystem hashes))
        ∙ k.1,
  )
  handle_kept fuel now (response id (held_chunks hashes)) h ctx k =
      note_held_kept fuel id hashes h ctx k
  handle_kept fuel now (swarm_event (outbound_failure id)) h ctx k =
      (dropped-IsRemote id h k.0, k.1)
  handle_kept fuel now (swarm_event (connection_established peer established)) h ctx k =
      rebalance-Kept crates net chan laws local fuel now h ctx k
  handle_kept fuel now (request (check_chunks hashes) none) h ctx k = k
  handle_kept fuel now (request (pull_chunk hash) channel) h ctx k = k
  handle_kept fuel now (request (pull_missing_operations ids) channel) h ctx k = k
  handle_kept fuel now (response id (chunk_content content)) h ctx k = k
  handle_kept fuel now (response id (missing_operations operations)) h ctx k = k
  handle_kept fuel now (response id (failure e)) h ctx k = k
  handle_kept fuel now tick_event h ctx k = k
  handle_kept fuel now (swarm_event (discovered peers)) h ctx k = k
  handle_kept fuel now (swarm_event other_swarm_event) h ctx k = k
  handle_kept fuel now (swarm_event (request_message r channel)) h ctx k = k
  handle_kept fuel now (swarm_event (response_message id r)) h ctx k = k
  handle_kept fuel now (swarm_event (gossip_message message)) h ctx k = k
  handle_kept fuel now (gossip message) h ctx k = k
  handle_kept fuel now (command c) h ctx k = k

  retimed-IsRemote :
      (rebalance_at eviction_at : ℕ) (h : Handler crates net chan)
      → IsRemote local h
      → IsRemote local (record h { next_rebalance = rebalance_at; next_eviction = eviction_at })
  retimed-IsRemote rebalance_at eviction_at h k = record {
    confirmed-Distinct = k.confirmed-Distinct;
    confirmed_remote = k.confirmed_remote;
    pending_remote = k.pending_remote;
  }

  tick_rebalance_kept :
      (fuel now : ℕ) (h : Handler crates net chan) (ctx : Ctx crates net)
      → Fine (h, ctx)
      → Holds Fine (tick_rebalance crates net chan fuel now h ctx)
  unfolding tick_rebalance
  tick_rebalance_kept fuel now h ctx k = elim (Bool-cases (leb h.next_rebalance now)) [
    | inl due ↦
        rw (tick_rebalance, due)
          (rebalance-Kept crates net chan laws local fuel now
            (record h { next_rebalance = now + replication_rebalance_interval }) ctx
            (retimed-IsRemote (now + replication_rebalance_interval) h.next_eviction h k.0, k.1))
    | inr early ↦ rw (tick_rebalance, early) k
  ]

  tick_eviction_kept :
      (fuel now : ℕ) (h : Handler crates net chan) (ctx : Ctx crates net)
      → Fine (h, ctx)
      → Holds Fine (tick_eviction crates net chan fuel now h ctx)
  unfolding tick_eviction
  tick_eviction_kept fuel now h ctx k = elim (Bool-cases (leb h.next_eviction now)) [
    | inl due ↦
        rw (tick_eviction, due)
          (probe_eviction_candidates-Kept crates net chan laws local fuel
            (record h { next_eviction = now + replication_eviction_interval }) ctx
            (retimed-IsRemote h.next_rebalance (now + replication_eviction_interval) h k.0, k.1))
    | inr early ↦ rw (tick_eviction, early) k
  ]

  tick_kept :
      (fuel now : ℕ) (h : Handler crates net chan) (ctx : Ctx crates net)
      → Fine (h, ctx)
      → Holds Fine (tick crates net chan fuel now h ctx)
  unfolding tick
  tick_kept fuel now h ctx k =
      let first : Holds Fine (tick_rebalance crates net chan fuel now h ctx) =
        tick_rebalance_kept fuel now h ctx k in
      elim (Option-cases (tick_rebalance crates net chan fuel now h ctx)) [
        | inl n ↦ rw (tick, n) tt
        | inr ((h', ctx'), e) ↦
            rw (tick, e)
              (tick_eviction_kept fuel now h' ctx' (Holds-some Fine _ (h', ctx') first e))
      ]

  history_kept :
      (h : Handler crates net chan) (ctx : Ctx crates net) → History h ctx → Fine (h, ctx)
  unfolding new
  history_kept _ _ (start now tx ctx same) = (
    record {
      confirmed-Distinct = tt;
      confirmed_remote = λ hash. ground (arith, get-nil {V = List PeerId} hash);
      pending_remote = λ id. ground (arith, get-nil {V = PeerId} id);
    },
    same,
  )
  history_kept _ _ (handled h ctx fuel now e after past done) =
      Holds-some Fine (handle crates net chan fuel now e h ctx) after
        (handle_kept fuel now e h ctx (history_kept h ctx past)) done
  history_kept _ _ (ticked h ctx fuel now after past done) =
      Holds-some Fine (tick crates net chan fuel now h ctx) after
        (tick_kept fuel now h ctx (history_kept h ctx past)) done
  history_kept _ _ (others h ctx ctx' past same) =
      let k : Fine (h, ctx) = history_kept h ctx past in (k.0, same ∙ k.1)

  -- In every state that a handler reaches, a response with the hashes that a peer holds takes a chunk
  -- away, or changes how it is stored, only where the peer was asked, the chunk is reachable, this peer is not
  -- among its designated holders, there are two of those, and each has now confirmed that it holds it.
  pub note_held_safe :
      (fuel : ℕ) (id : OutboundRequestId) (hashes : List ChunkHash) (h : Handler crates net chan)
      (ctx : Ctx crates net) (after : Handler crates net chan × Ctx crates net) (hash : ChunkHash)
      → History h ctx
      → note_held crates net chan fuel id hashes h ctx ≡ some after
      → (Map.get hash after.1.filesystem.storage.chunks
          ≡ Map.get hash ctx.filesystem.storage.chunks)
        ⊎ ((peer : PeerId) × (Map.get id h.pending_probes ≡ some peer)
            × IsHeldElsewhere crates net chan fuel hash
                (or_default (Map.get hash (confirm_all peer hashes h.confirmed_holders)))
                ctx)
  unfolding note_held
  note_held_safe fuel id hashes h ctx after hash past done =
      let k : Fine (h, ctx) = history_kept h ctx past in
      elim (Option-cases (Map.get id h.pending_probes)) [
        | inl n ↦
            let same : (h, ctx) ≡ after = ground (arith, n) in
            inl (
              subst
                (λ (a : Handler crates net chan × Ctx crates net).
                  Map.get hash a.1.filesystem.storage.chunks
                  ≡ Map.get hash ctx.filesystem.storage.chunks)
                same refl)
        | inr (peer, e) ↦
            let h' : Handler crates net chan = record h {
              pending_probes = Map.remove id h.pending_probes;
              confirmed_holders = confirm_all peer hashes h.confirmed_holders;
            } in
            let evicted : evict_confirmed crates net chan fuel h' ctx ≡ some after =
              ground (arith, e) in
            let remote : IsRemote (net.local_peer_id ctx.swarm) h' =
              subst (λ p. IsRemote p h') (sym k.1) (confirmed-IsRemote id peer hashes h e k.0) in
            elim (evict_confirmed_safe crates net chan fuel h' ctx after hash remote evicted) [
              | inl unchanged ↦ inl unchanged
              | inr elsewhere ↦ inr (peer, e, elsewhere)
            ]
      ]
