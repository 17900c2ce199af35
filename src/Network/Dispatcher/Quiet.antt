-- ===== src/Network/Dispatcher/Quiet.antt =====
-- src/network/handlers/: what the handlers that exchange operations leave alone in the swarm and in the
-- answers.
use edfs.Crates.{Crates, NodeOperation, PeerId}
use edfs.Domain.{Bytes}
use edfs.FileSystem.Chunks.{operation_ids, operations_missing_from}
use edfs.Network.Exchange.{
  synchronize_with, synchronize_at, synchronize_any, peer_at, sync_tick, sync_interval,
  serve_operations, sync_handle, broadcast, apply_gossip, gossip_handle, dial_all, mdns_handle,
  SyncHandler,
}
use edfs.Network.Fetcher.{Ctx}
use edfs.Network.Fetcher.Handling.{Holds, Holds-some}
use edfs.Network.Protocol.{
  OutboundRequestId, ResponseChannel, Request, Response, Event, pull_chunk, check_chunks,
  pull_missing_operations, chunk_content, held_chunks, missing_operations, failure, request,
  response, gossip, command, tick_event, swarm_event, broadcast_operations, fetch_command,
  request_message, response_message, gossip_message, outbound_failure, connection_established,
  discovered, other_swarm_event,
}
use edfs.Network.Swarm.{Libp2p, SwarmLaws}
use edfs.Prelude.{
  ℕ, ◌≡◌, refl, ◌==◌, ◌-◌, ◌∙◌, Bool, true, ◌||◌, leb, mem, Option, none, some, List, [], ◌∷◌,
  length, if◌then◌else◌, arith, Bool-cases, Option-cases, inl, inr,
}
use edfs.Tree.{NodeOperationId}

module _ (crates : Crates) (net : Libp2p) (laws : SwarmLaws net) where
  -- A step that answers no reply for a chunk, forgets no request and keeps the peer's name.
  pub record Quiet (ctx ctx' : Ctx crates net) : Type 0 where
    pub same_answered : ctx'.answered ≡ ctx.answered
    pub same_local : net.local_peer_id ctx'.swarm ≡ net.local_peer_id ctx.swarm
    pub issued_stay :
        (id : OutboundRequestId)
        → laws.is_issued ctx.swarm id ≡ true
        → laws.is_issued ctx'.swarm id ≡ true

  pub Quiet-refl : (ctx : Ctx crates net) → Quiet ctx ctx
  Quiet-refl ctx = record { same_answered = refl; same_local = refl; issued_stay = λ id i. i }

  pub Quiet-trans : (a b c : Ctx crates net) → Quiet a b → Quiet b c → Quiet a c
  Quiet-trans a b c p q = record {
    same_answered = q.same_answered ∙ p.same_answered;
    same_local = q.same_local ∙ p.same_local;
    issued_stay = λ id i. q.issued_stay id (p.issued_stay id i);
  }

  pub send_request-Quiet :
      (ctx : Ctx crates net) (peer : PeerId) (r : Request)
      → Quiet ctx (record ctx { swarm = (net.send_request ctx.swarm peer r).1 })
  send_request-Quiet ctx peer r = record {
    same_answered = refl;
    same_local = laws.local-send_request ctx.swarm peer r;
    issued_stay = λ id i. ground (arith, laws.issued-send_request ctx.swarm peer r id);
  }

  pub send_response-Quiet :
      (ctx : Ctx crates net) (channel : ResponseChannel) (r : Response)
      → Quiet ctx (record ctx { swarm = net.send_response ctx.swarm channel r })
  send_response-Quiet ctx channel r = record {
    same_answered = refl;
    same_local = laws.local-send_response ctx.swarm channel r;
    issued_stay = λ id i. ground (arith, laws.issued-send_response ctx.swarm channel r id);
  }

  dial-Quiet :
      (ctx : Ctx crates net) (addr : ℕ) → Quiet ctx (record ctx { swarm = net.dial ctx.swarm addr })
  dial-Quiet ctx addr = record {
    same_answered = refl;
    same_local = laws.local-dial ctx.swarm addr;
    issued_stay = λ id i. ground (arith, laws.issued-dial ctx.swarm addr id);
  }

  publish-Quiet :
      (ctx : Ctx crates net) (bytes : Bytes)
      → Quiet ctx (record ctx { swarm = net.publish ctx.swarm bytes })
  publish-Quiet ctx bytes = record {
    same_answered = refl;
    same_local = laws.local-publish ctx.swarm bytes;
    issued_stay = λ id i. ground (arith, laws.issued-publish ctx.swarm bytes id);
  }

  dial_all-Quiet :
      (list : List (PeerId × ℕ)) (ctx : Ctx crates net)
      → Quiet ctx (record ctx { swarm = dial_all crates net list ctx.swarm })
  unfolding dial_all
  dial_all-Quiet [] ctx = Quiet-refl ctx
  dial_all-Quiet ((peer, addr) ∷ list) ctx =
      let skip : Bool =
        peer == net.local_peer_id ctx.swarm || mem peer (net.connected_peers ctx.swarm) in
      let dialed : Ctx crates net = record ctx { swarm = net.dial ctx.swarm addr } in
      elim (Bool-cases skip) [
        | inl e ↦ rw (dial_all, e) (dial_all-Quiet list ctx)
        | inr e ↦
            rw (dial_all, e)
              (Quiet-trans ctx dialed _ (dial-Quiet ctx addr) (dial_all-Quiet list dialed))
      ]

  mdns_handle-Quiet : (e : Event) (ctx : Ctx crates net) → Quiet ctx (mdns_handle crates net e ctx)
  mdns_handle-Quiet (swarm_event (discovered list)) ctx = dial_all-Quiet list ctx
  mdns_handle-Quiet (swarm_event (request_message r channel)) ctx = Quiet-refl ctx
  mdns_handle-Quiet (swarm_event (response_message id r)) ctx = Quiet-refl ctx
  mdns_handle-Quiet (swarm_event (gossip_message content)) ctx = Quiet-refl ctx
  mdns_handle-Quiet (swarm_event (outbound_failure id)) ctx = Quiet-refl ctx
  mdns_handle-Quiet (swarm_event (connection_established peer n)) ctx = Quiet-refl ctx
  mdns_handle-Quiet (swarm_event other_swarm_event) ctx = Quiet-refl ctx
  mdns_handle-Quiet tick_event ctx = Quiet-refl ctx
  mdns_handle-Quiet (request r reply) ctx = Quiet-refl ctx
  mdns_handle-Quiet (response id r) ctx = Quiet-refl ctx
  mdns_handle-Quiet (gossip content) ctx = Quiet-refl ctx
  mdns_handle-Quiet (command c) ctx = Quiet-refl ctx

  broadcast-Quiet :
      (operations : List NodeOperation) (ctx : Ctx crates net)
      → Quiet ctx (broadcast crates net operations ctx)
  unfolding broadcast
  broadcast-Quiet operations ctx = elim (Option-cases (net.encode operations)) [
    | inl n ↦ rw (broadcast, n) (Quiet-refl ctx)
    | inr (bytes, e) ↦ rw (broadcast, e) (publish-Quiet ctx bytes)
  ]

  apply_gossip-Quiet :
      (now : NodeOperation → ℕ) (content : Bytes) (ctx : Ctx crates net)
      → Quiet ctx (apply_gossip crates net now content ctx)
  unfolding apply_gossip
  apply_gossip-Quiet now content ctx = elim (Option-cases (net.decode content)) [
    | inl n ↦ rw (apply_gossip, n) (Quiet-refl ctx)
    | inr (operations, e) ↦
        rw (apply_gossip, e)
          (record { same_answered = refl; same_local = refl; issued_stay = λ id i. i })
  ]

  gossip_handle-Quiet :
      (now : NodeOperation → ℕ) (e : Event) (ctx : Ctx crates net)
      → Quiet ctx (gossip_handle crates net now e ctx)
  gossip_handle-Quiet now (command (broadcast_operations operations)) ctx =
      broadcast-Quiet operations ctx
  gossip_handle-Quiet now (gossip content) ctx = apply_gossip-Quiet now content ctx
  gossip_handle-Quiet now (command (fetch_command hash reply pin)) ctx = Quiet-refl ctx
  gossip_handle-Quiet now tick_event ctx = Quiet-refl ctx
  gossip_handle-Quiet now (swarm_event e) ctx = Quiet-refl ctx
  gossip_handle-Quiet now (request r reply) ctx = Quiet-refl ctx
  gossip_handle-Quiet now (response id r) ctx = Quiet-refl ctx

  synchronize_with-Quiet :
      (peer : PeerId) (ctx : Ctx crates net) → Quiet ctx (synchronize_with crates net peer ctx)
  unfolding synchronize_with
  synchronize_with-Quiet peer ctx =
      send_request-Quiet ctx peer (pull_missing_operations (operation_ids crates ctx.filesystem))

  connected-Quiet :
      (peer : PeerId) (established : ℕ) (ctx : Ctx crates net)
      → Quiet ctx (if established == 1 then synchronize_with crates net peer ctx else ctx)
  connected-Quiet peer established ctx = elim (Bool-cases (established == 1)) [
    | inl e ↦ rw e (synchronize_with-Quiet peer ctx)
    | inr e ↦ rw e (Quiet-refl ctx)
  ]

  serve_operations-Quiet :
      (ids : List NodeOperationId) (channel : ResponseChannel) (ctx : Ctx crates net)
      → Quiet ctx (serve_operations crates net ids channel ctx)
  unfolding serve_operations
  serve_operations-Quiet ids channel ctx =
      send_response-Quiet ctx channel
        (missing_operations (operations_missing_from crates ctx.filesystem ids))

  sync_handle-Quiet :
      (now : NodeOperation → ℕ) (e : Event) (ctx : Ctx crates net)
      → Quiet ctx (sync_handle crates net now e ctx)
  sync_handle-Quiet now (swarm_event (connection_established peer n)) ctx =
      connected-Quiet peer n ctx
  sync_handle-Quiet now (request (pull_missing_operations ids) (some channel)) ctx =
      serve_operations-Quiet ids channel ctx
  sync_handle-Quiet now (response id (missing_operations operations)) ctx = record {
    same_answered = refl;
    same_local = refl;
    issued_stay = λ id i. i;
  }
  sync_handle-Quiet now (swarm_event (discovered list)) ctx = Quiet-refl ctx
  sync_handle-Quiet now (swarm_event (request_message r channel)) ctx = Quiet-refl ctx
  sync_handle-Quiet now (swarm_event (response_message id r)) ctx = Quiet-refl ctx
  sync_handle-Quiet now (swarm_event (gossip_message content)) ctx = Quiet-refl ctx
  sync_handle-Quiet now (swarm_event (outbound_failure id)) ctx = Quiet-refl ctx
  sync_handle-Quiet now (swarm_event other_swarm_event) ctx = Quiet-refl ctx
  sync_handle-Quiet now (request (pull_missing_operations ids) none) ctx = Quiet-refl ctx
  sync_handle-Quiet now (request (pull_chunk hash) reply) ctx = Quiet-refl ctx
  sync_handle-Quiet now (request (check_chunks hashes) reply) ctx = Quiet-refl ctx
  sync_handle-Quiet now (response id (chunk_content content)) ctx = Quiet-refl ctx
  sync_handle-Quiet now (response id (held_chunks hashes)) ctx = Quiet-refl ctx
  sync_handle-Quiet now (response id (failure e)) ctx = Quiet-refl ctx
  sync_handle-Quiet now tick_event ctx = Quiet-refl ctx
  sync_handle-Quiet now (gossip content) ctx = Quiet-refl ctx
  sync_handle-Quiet now (command c) ctx = Quiet-refl ctx

  pub exchange-Quiet :
      (now : NodeOperation → ℕ) (e : Event) (ctx : Ctx crates net)
      → Quiet ctx (
          sync_handle crates net now e
            (gossip_handle crates net now e (mdns_handle crates net e ctx)))
  exchange-Quiet now e ctx =
      let first : Ctx crates net = mdns_handle crates net e ctx in
      let second : Ctx crates net = gossip_handle crates net now e first in
      Quiet-trans ctx second _
        (Quiet-trans ctx first second (mdns_handle-Quiet e ctx) (gossip_handle-Quiet now e first))
        (sync_handle-Quiet now e second)

  synchronize_at-Quiet :
      (peer : Option PeerId) (ctx : Ctx crates net)
      → Holds (Quiet ctx) (synchronize_at crates net peer ctx)
  synchronize_at-Quiet none ctx = tt
  synchronize_at-Quiet (some peer) ctx = synchronize_with-Quiet peer ctx

  synchronize_any-Quiet :
      (random : ℕ → ℕ) (peers : List PeerId) (ctx : Ctx crates net)
      → Holds (Quiet ctx) (synchronize_any crates net random peers ctx)
  synchronize_any-Quiet random [] ctx = Quiet-refl ctx
  synchronize_any-Quiet random (peer ∷ peers) ctx =
      synchronize_at-Quiet (peer_at (peer ∷ peers) (random (length (peer ∷ peers)))) ctx

  pub sync_tick-Quiet :
      (now : ℕ) (random : ℕ → ℕ) (h : SyncHandler) (ctx : Ctx crates net)
      → Holds (λ after. Quiet ctx after.1) (sync_tick crates net now random h ctx)
  unfolding sync_tick
  sync_tick-Quiet now random h ctx =
      let synced : Option (Ctx crates net) =
        synchronize_any crates net random (net.connected_peers ctx.swarm) ctx in
      let quiet : Holds (Quiet ctx) synced =
        synchronize_any-Quiet random (net.connected_peers ctx.swarm) ctx in
      elim (Bool-cases (leb sync_interval (now - h.last_sync))) [
        | inr early ↦ rw (sync_tick, early) (Quiet-refl ctx)
        | inl due ↦ elim (Option-cases synced) [
          | inl n ↦ rw (sync_tick, due, n) tt
          | inr (ctx', e) ↦ rw (sync_tick, due, e) (Holds-some (Quiet ctx) synced ctx' quiet e)
        ]
      ]
