-- ===== src/Network/Dispatcher/Probes.antt =====
-- src/network/handlers/replication.rs: what `ReplicationHandler` leaves alone in the swarm and in the
-- answers.
use edfs.Config.{
  max_hashes_per_probe, replication_eviction_interval, replication_rebalance_interval,
}
use edfs.Crates.{Crates, PeerId}
use edfs.Domain.{ChunkHash}
use edfs.FileSystem.Reachable.{reachable_chunk_hashes}
use edfs.Network.Channel.{CommandChannel}
use edfs.Network.Dispatcher.Quiet.{
  Quiet, Quiet-refl, Quiet-trans, send_request-Quiet, send_response-Quiet,
}
use edfs.Network.Fetcher.{Ctx}
use edfs.Network.Fetcher.Handling.{Holds, Holds-some}
use edfs.Network.Protocol.{
  OutboundRequestId, Event, pull_chunk, check_chunks, pull_missing_operations, chunk_content,
  held_chunks, missing_operations, failure, request, response, gossip, command, tick_event,
  swarm_event, request_message, response_message, gossip_message, outbound_failure,
  connection_established, discovered, other_swarm_event,
}
use edfs.Network.Replication.{
  current_members, candidates_in, questions, retain_confirmed, confirm_all, probe_peer, probe_all,
  held_in,
}
use edfs.Network.Replication.Handling
use edfs.Network.Replication.Handling.{
  Handler, rebalance, probe_candidates, probe_eviction_candidates, evict_confirmed, note_held,
  tick_rebalance, tick_eviction, tick,
}
use edfs.Network.Swarm.{Libp2p, SwarmLaws}
use edfs.Prelude.Map
use edfs.Prelude.Map.{Map}
use edfs.Prelude.{
  ℕ, ◌≡◌, refl, ◌==◌, ◌+◌, true, leb, Option, none, some, List, [], ◌∷◌, length, chunks, Bool-cases,
  Option-cases, inl, inr, ap, subst, sym,
}
use edfs.Storage

module _ (crates : Crates) (net : Libp2p) (laws : SwarmLaws net) where
  probe_peer-Quiet :
      (peer : PeerId) (batches : List (List ChunkHash)) (ctx : Ctx crates net)
      (pending : Map PeerId)
      → Quiet crates net laws ctx
          (record ctx { swarm = (probe_peer crates net peer batches ctx.swarm pending).0 })
  unfolding probe_peer
  probe_peer-Quiet peer [] ctx pending = Quiet-refl crates net laws ctx
  probe_peer-Quiet peer (batch ∷ batches) ctx pending =
      let (id, swarm) = net.send_request ctx.swarm peer (check_chunks batch) in
      let sent : Ctx crates net = record ctx { swarm = swarm } in
      Quiet-trans crates net laws ctx sent _
        (send_request-Quiet crates net laws ctx peer (check_chunks batch))
        (probe_peer-Quiet peer batches sent (Map.insert id peer pending))

  probe_all-Quiet :
      (by_holder : Map (List ChunkHash)) (ctx : Ctx crates net) (pending : Map PeerId)
      → Quiet crates net laws ctx
          (record ctx { swarm = (probe_all crates net by_holder ctx.swarm pending).0 })
  unfolding probe_all
  probe_all-Quiet [] ctx pending = Quiet-refl crates net laws ctx
  probe_all-Quiet ((peer, hashes) ∷ by_holder) ctx pending =
      let batches : List (List ChunkHash) = chunks max_hashes_per_probe hashes in
      let (swarm, pending') = probe_peer crates net peer batches ctx.swarm pending in
      let asked : Ctx crates net = record ctx { swarm = swarm } in
      Quiet-trans crates net laws ctx asked _ (probe_peer-Quiet peer batches ctx pending)
        (probe_all-Quiet by_holder asked pending')

  module _ (chan : CommandChannel) where
    -- The results that are quiet.
    abbrev pub QuietAfter : Ctx crates net → Handler crates net chan × Ctx crates net → Type 0
    QuietAfter ctx after = Quiet crates net laws ctx after.1

    Quiet-files :
        (ctx ctx' : Ctx crates net)
        → ctx'.answered ≡ ctx.answered
        → ctx'.swarm ≡ ctx.swarm
        → Quiet crates net laws ctx ctx'
    Quiet-files ctx ctx' a s = record {
      same_answered = a;
      same_local = ap net.local_peer_id s;
      issued_stay = λ id i. subst (λ swarm. laws.is_issued swarm id ≡ true) (sym s) i;
    }

    rebalance-Quiet :
        (fuel now : ℕ) (h : Handler crates net chan) (ctx : Ctx crates net)
        → Holds (QuietAfter ctx) (rebalance crates net chan fuel now h ctx)
    unfolding rebalance
    rebalance-Quiet fuel now h ctx =
        elim (Bool-cases (length (current_members crates net ctx.swarm) == 1)) [
          | inl alone ↦ rw (rebalance, alone) (Quiet-refl crates net laws ctx)
          | inr b ↦ elim (Option-cases (reachable_chunk_hashes crates fuel ctx.filesystem)) [
            | inl n ↦ rw (rebalance, b, n) tt
            | inr (live, e) ↦ rw (rebalance, b, e) (Quiet-files ctx _ refl refl)
          ]
        ]

    probe_candidates-Quiet :
        (members : List PeerId) (candidates : List ChunkHash) (h : Handler crates net chan)
        (ctx : Ctx crates net)
        → QuietAfter ctx (probe_candidates crates net chan members candidates h ctx)
    probe_candidates-Quiet members [] h ctx = Quiet-refl crates net laws ctx
    probe_candidates-Quiet members (hash ∷ hashes) h ctx =
        let confirmed : Map (List PeerId) = retain_confirmed (hash ∷ hashes) h.confirmed_holders in
        probe_all-Quiet (questions crates net (hash ∷ hashes) members confirmed []) ctx
          h.pending_probes

    probe_eviction_candidates-Quiet :
        (fuel : ℕ) (h : Handler crates net chan) (ctx : Ctx crates net)
        → Holds (QuietAfter ctx) (probe_eviction_candidates crates net chan fuel h ctx)
    unfolding probe_eviction_candidates
    probe_eviction_candidates-Quiet fuel h ctx =
        elim (Option-cases (reachable_chunk_hashes crates fuel ctx.filesystem)) [
          | inl n ↦ rw (probe_eviction_candidates, n) tt
          | inr (live, e) ↦
              let members : List PeerId = current_members crates net ctx.swarm in
              rw (probe_eviction_candidates, e)
                (probe_candidates-Quiet members
                  (candidates_in crates net live members (net.local_peer_id ctx.swarm)
                    (Storage.pinned_hashes ctx.filesystem.storage))
                  h ctx)
        ]

    evict_confirmed-Quiet :
        (fuel : ℕ) (h : Handler crates net chan) (ctx : Ctx crates net)
        → Holds (QuietAfter ctx) (evict_confirmed crates net chan fuel h ctx)
    unfolding evict_confirmed
    evict_confirmed-Quiet fuel h ctx =
        elim (Option-cases (reachable_chunk_hashes crates fuel ctx.filesystem)) [
          | inl n ↦ rw (evict_confirmed, n) tt
          | inr (live, e) ↦ rw (evict_confirmed, e) (Quiet-files ctx _ refl refl)
        ]

    note_held-Quiet :
        (fuel : ℕ) (id : OutboundRequestId) (hashes : List ChunkHash) (h : Handler crates net chan)
        (ctx : Ctx crates net)
        → Holds (QuietAfter ctx) (note_held crates net chan fuel id hashes h ctx)
    unfolding note_held
    note_held-Quiet fuel id hashes h ctx = elim (Option-cases (Map.get id h.pending_probes)) [
      | inl n ↦ rw (note_held, n) (Quiet-refl crates net laws ctx)
      | inr (peer, e) ↦
          rw (note_held, e)
            (evict_confirmed-Quiet fuel
              (record h {
                pending_probes = Map.remove id h.pending_probes;
                confirmed_holders = confirm_all peer hashes h.confirmed_holders;
              })
              ctx)
    ]

    -- `ReplicationHandler::handle` and `tick`.
    pub handle-Quiet :
        (fuel now : ℕ) (e : Event) (h : Handler crates net chan) (ctx : Ctx crates net)
        → Holds (QuietAfter ctx) (Handling.handle crates net chan fuel now e h ctx)
    handle-Quiet fuel now (request (check_chunks hashes) (some channel)) h ctx =
        send_response-Quiet crates net laws ctx channel
          (held_chunks (held_in crates net ctx.filesystem hashes))
    handle-Quiet fuel now (response id (held_chunks hashes)) h ctx =
        note_held-Quiet fuel id hashes h ctx
    handle-Quiet fuel now (swarm_event (connection_established peer established)) h ctx =
        rebalance-Quiet fuel now h ctx
    handle-Quiet fuel now (swarm_event (outbound_failure id)) h ctx = Quiet-refl crates net laws ctx
    handle-Quiet fuel now (swarm_event (discovered peers)) h ctx = Quiet-refl crates net laws ctx
    handle-Quiet fuel now (swarm_event other_swarm_event) h ctx = Quiet-refl crates net laws ctx
    handle-Quiet fuel now (swarm_event (request_message r channel)) h ctx =
        Quiet-refl crates net laws ctx
    handle-Quiet fuel now (swarm_event (response_message id r)) h ctx =
        Quiet-refl crates net laws ctx
    handle-Quiet fuel now (swarm_event (gossip_message message)) h ctx =
        Quiet-refl crates net laws ctx
    handle-Quiet fuel now (request (check_chunks hashes) none) h ctx =
        Quiet-refl crates net laws ctx
    handle-Quiet fuel now (request (pull_chunk hash) channel) h ctx = Quiet-refl crates net laws ctx
    handle-Quiet fuel now (request (pull_missing_operations ids) channel) h ctx =
        Quiet-refl crates net laws ctx
    handle-Quiet fuel now (response id (chunk_content content)) h ctx =
        Quiet-refl crates net laws ctx
    handle-Quiet fuel now (response id (missing_operations operations)) h ctx =
        Quiet-refl crates net laws ctx
    handle-Quiet fuel now (response id (failure e)) h ctx = Quiet-refl crates net laws ctx
    handle-Quiet fuel now tick_event h ctx = Quiet-refl crates net laws ctx
    handle-Quiet fuel now (gossip message) h ctx = Quiet-refl crates net laws ctx
    handle-Quiet fuel now (command c) h ctx = Quiet-refl crates net laws ctx

    tick_rebalance-Quiet :
        (fuel now : ℕ) (h : Handler crates net chan) (ctx : Ctx crates net)
        → Holds (QuietAfter ctx) (tick_rebalance crates net chan fuel now h ctx)
    unfolding tick_rebalance
    tick_rebalance-Quiet fuel now h ctx = elim (Bool-cases (leb h.next_rebalance now)) [
      | inl due ↦
          rw (tick_rebalance, due)
            (rebalance-Quiet fuel now
              (record h { next_rebalance = now + replication_rebalance_interval }) ctx)
      | inr early ↦ rw (tick_rebalance, early) (Quiet-refl crates net laws ctx)
    ]

    tick_eviction-Quiet :
        (fuel now : ℕ) (h : Handler crates net chan) (ctx : Ctx crates net)
        → Holds (QuietAfter ctx) (tick_eviction crates net chan fuel now h ctx)
    unfolding tick_eviction
    tick_eviction-Quiet fuel now h ctx = elim (Bool-cases (leb h.next_eviction now)) [
      | inl due ↦
          rw (tick_eviction, due)
            (probe_eviction_candidates-Quiet fuel
              (record h { next_eviction = now + replication_eviction_interval }) ctx)
      | inr early ↦ rw (tick_eviction, early) (Quiet-refl crates net laws ctx)
    ]

    Holds-after :
        (ctx ctx' : Ctx crates net) (o : Option (Handler crates net chan × Ctx crates net))
        → Quiet crates net laws ctx ctx'
        → Holds (QuietAfter ctx') o
        → Holds (QuietAfter ctx) o
    Holds-after ctx ctx' none q h = tt
    Holds-after ctx ctx' (some after) q h = Quiet-trans crates net laws ctx ctx' after.1 q h

    pub tick-Quiet :
        (fuel now : ℕ) (h : Handler crates net chan) (ctx : Ctx crates net)
        → Holds (QuietAfter ctx) (tick crates net chan fuel now h ctx)
    unfolding tick
    tick-Quiet fuel now h ctx =
        let first : Holds (QuietAfter ctx) (tick_rebalance crates net chan fuel now h ctx) =
          tick_rebalance-Quiet fuel now h ctx in
        elim (Option-cases (tick_rebalance crates net chan fuel now h ctx)) [
          | inl n ↦ rw (tick, n) tt
          | inr ((h', ctx'), e) ↦
              rw (tick, e)
                (Holds-after ctx ctx' (tick_eviction crates net chan fuel now h' ctx')
                  (Holds-some (QuietAfter ctx) (tick_rebalance crates net chan fuel now h ctx)
                    (h', ctx') first e)
                  (tick_eviction-Quiet fuel now h' ctx'))
        ]
