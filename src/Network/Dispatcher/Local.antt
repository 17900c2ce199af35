-- ===== src/Network/Dispatcher/Local.antt =====
-- src/network/handlers/: what `ChunkHandler` and `ReplicationHandler` leave alone in the swarm and in the
-- answers.
use edfs.Config.{max_fetch_targets}
use edfs.Crates.{Crates, PeerId}
use edfs.Domain.{Bytes, ChunkHash}
use edfs.FileSystem.Chunks.{chunk}
use edfs.Network.Fetcher.{
  FetchSession, ChunkFetcher, Ctx, send_pull, send_all, give_up, walk_down, next_targets,
  fetch_chunk, is_blocked, walk_if_empty, on_attempt_failed, handle_failure,
}
use edfs.Network.Fetcher.Handling.{Holds}
use edfs.Network.Fetcher.Responses
use edfs.Network.Fetcher.Responses.{
  chunk_response, serve_chunk, store_fetched, complete, complete_if_found, handle_response,
}
use edfs.Network.Protocol.{
  ChunkReply, OutboundRequestId, ResponseChannel, Event, pull_chunk, check_chunks,
  pull_missing_operations, chunk_content, held_chunks, missing_operations, failure, request,
  response, gossip, command, tick_event, swarm_event, broadcast_operations, fetch_command,
  request_message, response_message, gossip_message, outbound_failure, connection_established,
  discovered, other_swarm_event,
}
use edfs.Network.Swarm.{Libp2p, SwarmLaws}
use edfs.Prelude.Map
use edfs.Prelude.Map.{Map}
use edfs.Prelude.{
  ℕ, ◌≡◌, refl, ◌==◌, ◌∙◌, Bool, not, ◌&&◌, Option, none, some, List, [], ◌∷◌, Bool-cases,
  Option-cases, List-cases, inl, inr,
}

module _ (crates : Crates) (net : Libp2p) (laws : SwarmLaws net) where
  abbrev me : Ctx crates net → PeerId
  me ctx = net.local_peer_id ctx.swarm

  local-send_all :
      (hash : ChunkHash) (peers : List PeerId) (f : ChunkFetcher) (ctx : Ctx crates net)
      → me (send_all crates net hash peers f ctx).1 ≡ me ctx
  unfolding send_all send_pull
  local-send_all hash [] f ctx = refl
  local-send_all hash (peer ∷ peers) f ctx =
      let (f', ctx') = send_pull crates net hash peer f ctx in
      local-send_all hash peers f' ctx' ∙ laws.local-send_request ctx.swarm peer (pull_chunk hash)

  local-walk_down :
      (now : ℕ) (hash : ChunkHash) (f : ChunkFetcher) (ctx : Ctx crates net)
      → me (walk_down crates net now hash f ctx).1 ≡ me ctx
  unfolding walk_down give_up
  local-walk_down now hash f ctx =
      let targets : FetchSession → List PeerId = λ s.
        next_targets crates net hash (net.connected_peers ctx.swarm) s.tried max_fetch_targets in
      elim (Option-cases (Map.get hash f.sessions)) [
        | inl n ↦ rw (walk_down, n) refl
        | inr (session, e) ↦ elim (List-cases (targets session)) [
          | inl t ↦ rw (walk_down, e, t) refl
          | inr (peer, peers, t) ↦ rw (walk_down, e, t) (local-send_all hash (peer ∷ peers) f ctx)
        ]
      ]

  local-fetch_chunk :
      (now : ℕ) (hash : ChunkHash) (reply : Option ChunkReply) (pin : Bool) (f : ChunkFetcher)
      (ctx : Ctx crates net)
      → me (fetch_chunk crates net now hash reply pin f ctx).1 ≡ me ctx
  unfolding fetch_chunk
  local-fetch_chunk now hash reply pin f ctx = elim (Option-cases (Map.get hash f.sessions)) [
    | inr (session, e) ↦ rw (fetch_chunk, e) refl
    | inl n ↦ elim (Bool-cases (not pin && is_blocked now f hash)) [
      | inl b ↦ rw (fetch_chunk, n, b) refl
      | inr b ↦ rw (fetch_chunk, n, b) (local-walk_down now hash _ ctx)
    ]
  ]

  local-walk_if_empty :
      (now : ℕ) (hash : ChunkHash) (attempts : Map PeerId) (f : ChunkFetcher) (ctx : Ctx crates net)
      → me (walk_if_empty crates net now hash attempts f ctx).1 ≡ me ctx
  local-walk_if_empty now hash [] f ctx = local-walk_down now hash f ctx
  local-walk_if_empty now hash (attempt ∷ attempts) f ctx = refl

  local-on_attempt_failed :
      (now : ℕ) (hash : ChunkHash) (id : OutboundRequestId) (f : ChunkFetcher)
      (ctx : Ctx crates net)
      → me (on_attempt_failed crates net now hash id f ctx).1 ≡ me ctx
  unfolding on_attempt_failed
  local-on_attempt_failed now hash id f ctx = elim (Option-cases (Map.get hash f.sessions)) [
    | inl n ↦ rw (on_attempt_failed, n) refl
    | inr (session, e) ↦
        rw (on_attempt_failed, e)
          (local-walk_if_empty now hash (Map.remove id session.attempts) _ ctx)
  ]

  local-handle_failure :
      (now : ℕ) (id : OutboundRequestId) (f : ChunkFetcher) (ctx : Ctx crates net)
      → me (handle_failure crates net now id f ctx).1 ≡ me ctx
  unfolding handle_failure
  local-handle_failure now id f ctx = elim (Option-cases (Map.get id f.requests)) [
    | inl n ↦ rw (handle_failure, n) refl
    | inr (hash, r) ↦ rw (handle_failure, r) (local-on_attempt_failed now hash id _ ctx)
  ]

  -- The results that keep the peer's name.
  abbrev pub SameLocal : Ctx crates net → ChunkFetcher × Ctx crates net → Type 0
  SameLocal ctx after = me after.1 ≡ me ctx

  local-complete :
      (now : ℕ) (hash : ChunkHash) (session : FetchSession) (content : Bytes) (f : ChunkFetcher)
      (ctx : Ctx crates net)
      → Holds (SameLocal ctx) (complete crates net now hash session content f ctx)
  unfolding complete
  local-complete now hash session content f ctx =
      elim (Option-cases (store_fetched crates net session.pin content ctx.filesystem)) [
        | inl n ↦ rw (complete, n) tt
        | inr (stored, k) ↦ rw (complete, k) refl
      ]

  local-complete_if_found :
      (now : ℕ) (hash : ChunkHash) (session : Option FetchSession) (content : Bytes)
      (f : ChunkFetcher) (ctx : Ctx crates net)
      → Holds (SameLocal ctx) (complete_if_found crates net now hash session content f ctx)
  local-complete_if_found now hash none content f ctx = refl
  local-complete_if_found now hash (some session) content f ctx =
      local-complete now hash session content f ctx

  local-handle_response :
      (now : ℕ) (id : OutboundRequestId) (content : Bytes) (f : ChunkFetcher) (ctx : Ctx crates net)
      → Holds (SameLocal ctx) (handle_response crates net now id content f ctx)
  unfolding handle_response
  local-handle_response now id content f ctx = elim (Option-cases (Map.get id f.requests)) [
    | inl n ↦ rw (handle_response, n) refl
    | inr (hash, r) ↦ elim (Bool-cases (crates.digest content == hash)) [
      | inr b ↦ rw (handle_response, r, b) (local-on_attempt_failed now hash id _ ctx)
      | inl b ↦
          rw (handle_response, r, b)
            (local-complete_if_found now hash (Map.get hash f.sessions) content _ ctx)
    ]
  ]

  local-serve_chunk :
      (hash : ChunkHash) (channel : ResponseChannel) (ctx : Ctx crates net)
      → me (serve_chunk crates net hash channel ctx) ≡ me ctx
  unfolding serve_chunk
  local-serve_chunk hash channel ctx =
      laws.local-send_response ctx.swarm channel
        (chunk_response (chunk crates ctx.filesystem hash).0)

  -- `ChunkHandler::handle` keeps the peer's name.
  pub local-handle :
      (now : ℕ) (e : Event) (f : ChunkFetcher) (ctx : Ctx crates net)
      → Holds (SameLocal ctx) (Responses.handle crates net now e f ctx)
  local-handle now (command (fetch_command hash reply pin)) f ctx =
      local-fetch_chunk now hash reply pin f ctx
  local-handle now (request (pull_chunk hash) (some channel)) f ctx =
      local-serve_chunk hash channel ctx
  local-handle now (response id (chunk_content content)) f ctx =
      local-handle_response now id content f ctx
  local-handle now (response id (failure e)) f ctx = local-handle_failure now id f ctx
  local-handle now (swarm_event (outbound_failure id)) f ctx = local-handle_failure now id f ctx
  local-handle now (command (broadcast_operations operations)) f ctx = refl
  local-handle now (request (pull_chunk hash) none) f ctx = refl
  local-handle now (request (check_chunks hashes) channel) f ctx = refl
  local-handle now (request (pull_missing_operations ids) channel) f ctx = refl
  local-handle now (response id (held_chunks hashes)) f ctx = refl
  local-handle now (response id (missing_operations operations)) f ctx = refl
  local-handle now tick_event f ctx = refl
  local-handle now (swarm_event (connection_established peer established)) f ctx = refl
  local-handle now (swarm_event (discovered peers)) f ctx = refl
  local-handle now (swarm_event other_swarm_event) f ctx = refl
  local-handle now (swarm_event (request_message r channel)) f ctx = refl
  local-handle now (swarm_event (response_message id r)) f ctx = refl
  local-handle now (swarm_event (gossip_message message)) f ctx = refl
  local-handle now (gossip message) f ctx = refl
