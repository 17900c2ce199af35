-- ===== src/Network/Fetcher/Handling.antt =====
-- src/network/handlers/chunk.rs: what `ChunkHandler::handle` does on every event.
use edfs.Crates.{Crates, PeerId}
use edfs.Domain.{Bytes, ChunkHash}
use edfs.FileSystem.Chunks.{chunk}
use edfs.Network.Fetcher.{FetchSession, ChunkFetcher, Ctx, waiter_of, handle_failure}
use edfs.Network.Fetcher.Responses.{
  store_fetched, complete, handle_response, handle, serve_chunk, chunk_response,
}
use edfs.Network.Fetcher.Sound.{Sound}
use edfs.Network.Fetcher.Sound.Steps.{
  on_attempt_failed-Sound, end_session-Sound, handle_failure-Sound, fetch_chunk-Sound,
}
use edfs.Network.Fetcher.Waiters.{
  waiters_in, answered_to-answers, owed_or_sent, on_attempt_failed-owed_or_sent,
  handle_failure-owed_or_sent, fetch_chunk-owed_or_sent,
}
use edfs.Network.Protocol.{
  ChunkReply, OutboundRequestId, ResponseChannel, Response, pull_chunk, check_chunks,
  pull_missing_operations, chunk_content, held_chunks, missing_operations, failure, Event,
  fetch_command, broadcast_operations, command, request, response, outbound_failure, tick_event,
  connection_established, discovered, other_swarm_event, gossip, swarm_event, request_message,
  response_message, gossip_message,
}
use edfs.Network.Swarm.{Libp2p, SwarmLaws}
use edfs.Prelude.Map
use edfs.Prelude.Map.{Map, total-remove, get-nil}
use edfs.Prelude.{
  ℕ, ◌≡◌, refl, ◌+◌, ◌==◌, Option, none, some, List, [], Bool-cases, Option-cases, arith, inl, inr,
  count, count-nil, subst,
}

-- The replies that an event brings.
abbrev pub asked : Event → List ChunkReply
asked (command (fetch_command hash reply pin)) = waiter_of reply
asked _ = []

-- What holds of a result, unless the code panicked.
abbrev pub Holds {ℓ κ} : {A : Type ℓ} → (A → Type κ) → Option A → Type κ
Holds P none = Unit
Holds P (some a) = P a

pub Holds-some {ℓ κ} :
    {A : Type ℓ} (P : A → Type κ) (o : Option A) (a : A) → Holds P o → o ≡ some a → P a
Holds-some P o a h e = subst (Holds P) e h

module _ (crates : Crates) (net : Libp2p) (laws : SwarmLaws net) (w : ChunkReply) where
  -- A state where sessions and requests agree and `n` replies to `w` are owed or sent.
  abbrev pub Kept : ℕ → ChunkFetcher × Ctx crates net → Type 0
  Kept n after = Sound crates net laws after.0 after.1.swarm × (owed_or_sent crates net w after ≡ n)

  complete-Kept :
      (now : ℕ) (hash : ChunkHash) (id : OutboundRequestId) (session : FetchSession)
      (content : Bytes) (f : ChunkFetcher) (ctx : Ctx crates net)
      → Map.get id f.requests ≡ some hash
      → Map.get hash f.sessions ≡ some session
      → Sound crates net laws f ctx.swarm
      → Holds (Kept (owed_or_sent crates net w (f, ctx))) (
          complete crates net now hash session content
            (record f { requests = Map.remove id f.requests })
            ctx)
  unfolding complete
  complete-Kept now hash id session content f ctx r e s =
      elim (Option-cases (store_fetched crates net session.pin content ctx.filesystem)) [
        | inl n ↦ rw (complete, n) tt
        | inr ((refused, fs), k) ↦
            rw (complete, k)
              (
                end_session-Sound crates net laws hash id session _ f ctx.swarm r e s,
                ground (
                  arith,
                  e,
                  total-remove (waiters_in w) hash f.sessions s.linked.sessions-Distinct,
                  answered_to-answers w ctx.answered session.waiters (some content),
                ),
              )
      ]

  handle_response-Kept :
      (now : ℕ) (id : OutboundRequestId) (content : Bytes) (f : ChunkFetcher) (ctx : Ctx crates net)
      → Sound crates net laws f ctx.swarm
      → Holds
          (Kept (owed_or_sent crates net w (f, ctx)))
          (handle_response crates net now id content f ctx)
  unfolding handle_response
  handle_response-Kept now id content f ctx s = elim (Option-cases (Map.get id f.requests)) [
    | inl n ↦ rw (handle_response, n) (s, refl)
    | inr (hash, r) ↦ elim (Bool-cases (crates.digest content == hash)) [
      | inr b ↦
          rw (handle_response, r, b)
            (
              on_attempt_failed-Sound crates net laws now hash id f ctx r s,
              on_attempt_failed-owed_or_sent crates net w now hash id
                  (record f { requests = Map.remove id f.requests }) ctx s.linked.sessions-Distinct,
            )
      | inl b ↦ elim (Option-cases (Map.get hash f.sessions)) [
        | inl n ↦
            absurd (ground (arith, n, r, s.linked.attempts_noted hash id, get-nil {V = PeerId} id))
        | inr (session, e) ↦
            rw (handle_response, r, b, e) (complete-Kept now hash id session content f ctx r e s)
      ]
    ]
  ]

  unasked :
      (n : ℕ) (after : Option (ChunkFetcher × Ctx crates net))
      → Holds (Kept n) after
      → Holds (Kept (n + count w [])) after
  unasked n after h =
      let e : n ≡ n + count w [] = ground (arith, count-nil w) in
      subst (λ k. Holds (Kept k) after) e h

  untouched :
      (f : ChunkFetcher) (ctx : Ctx crates net)
      → Sound crates net laws f ctx.swarm
      → Kept (owed_or_sent crates net w (f, ctx) + count w []) (f, ctx)
  untouched f ctx s = (s, ground (arith, count-nil w))

  failed :
      (now : ℕ) (id : OutboundRequestId) (f : ChunkFetcher) (ctx : Ctx crates net)
      → Sound crates net laws f ctx.swarm
      → Kept
          (owed_or_sent crates net w (f, ctx) + count w [])
          (handle_failure crates net now id f ctx)
  failed now id f ctx s =
      unasked (owed_or_sent crates net w (f, ctx)) (some (handle_failure crates net now id f ctx)) (
        handle_failure-Sound crates net laws now id f ctx s,
        handle_failure-owed_or_sent crates net w now id f ctx s.linked.sessions-Distinct,
      )

  served :
      (hash : ChunkHash) (channel : ResponseChannel) (f : ChunkFetcher) (ctx : Ctx crates net)
      → Sound crates net laws f ctx.swarm
      → Kept
          (owed_or_sent crates net w (f, ctx) + count w [])
          (f, serve_chunk crates net hash channel ctx)
  unfolding serve_chunk
  served hash channel f ctx s =
      let sent : Response = chunk_response (chunk crates ctx.filesystem hash).0 in
      (
        record {
          linked = record {
            sessions-Distinct = s.linked.sessions-Distinct;
            attempts_noted = s.linked.attempts_noted;
            requests_issued = λ j i. ground (
              arith,
              laws.issued-send_response ctx.swarm channel sent j,
              s.linked.requests_issued j,
            );
          };
          sessions_busy = s.sessions_busy;
        },
        ground (arith, count-nil w),
      )

  pub handle-Kept :
      (now : ℕ) (e : Event) (f : ChunkFetcher) (ctx : Ctx crates net)
      → Sound crates net laws f ctx.swarm
      → Holds
          (Kept (owed_or_sent crates net w (f, ctx) + count w (asked e)))
          (handle crates net now e f ctx)
  handle-Kept now (command (fetch_command hash reply pin)) f ctx s = (
    fetch_chunk-Sound crates net laws now hash reply pin f ctx s,
    fetch_chunk-owed_or_sent crates net w now hash reply pin f ctx s.linked.sessions-Distinct,
  )
  handle-Kept now (request (pull_chunk hash) (some channel)) f ctx s = served hash channel f ctx s
  handle-Kept now (response id (chunk_content content)) f ctx s =
      unasked (owed_or_sent crates net w (f, ctx)) (handle_response crates net now id content f ctx)
        (handle_response-Kept now id content f ctx s)
  handle-Kept now (response id (failure e)) f ctx s = failed now id f ctx s
  handle-Kept now (swarm_event (outbound_failure id)) f ctx s = failed now id f ctx s
  handle-Kept now (command (broadcast_operations operations)) f ctx s = untouched f ctx s
  handle-Kept now (request (pull_chunk hash) none) f ctx s = untouched f ctx s
  handle-Kept now (request (check_chunks hashes) channel) f ctx s = untouched f ctx s
  handle-Kept now (request (pull_missing_operations ids) channel) f ctx s = untouched f ctx s
  handle-Kept now (response id (held_chunks hashes)) f ctx s = untouched f ctx s
  handle-Kept now (response id (missing_operations operations)) f ctx s = untouched f ctx s
  handle-Kept now tick_event f ctx s = untouched f ctx s
  handle-Kept now (swarm_event (connection_established peer established)) f ctx s =
      untouched f ctx s
  handle-Kept now (swarm_event (discovered peers)) f ctx s = untouched f ctx s
  handle-Kept now (swarm_event other_swarm_event) f ctx s = untouched f ctx s
  handle-Kept now (swarm_event (request_message r channel)) f ctx s = untouched f ctx s
  handle-Kept now (swarm_event (response_message id r)) f ctx s = untouched f ctx s
  handle-Kept now (swarm_event (gossip_message message)) f ctx s = untouched f ctx s
  handle-Kept now (gossip message) f ctx s = untouched f ctx s
