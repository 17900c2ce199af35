-- ===== src/Network/Fetcher/Waiters.antt =====
-- src/network/handlers/chunk.rs: the replies that wait in a `ChunkFetcher` and those it has answered.
use edfs.Config.{max_fetch_targets}
use edfs.Crates.{Crates, PeerId}
use edfs.Domain.{Bytes, ChunkHash}
use edfs.Network.Fetcher.{
  FetchSession, ChunkFetcher, answers, waiter_of, note_attempt, send_pull, send_all, give_up,
  walk_down, next_targets, Ctx, open_session, join_session, fetch_chunk, is_blocked, drop_attempt,
  walk_if_empty, on_attempt_failed, handle_failure,
}
use edfs.Network.Protocol.{ChunkReply, OutboundRequestId, pull_chunk}
use edfs.Network.Swarm.{Libp2p}
use edfs.Prelude.Map
use edfs.Prelude.Map.{Map, weight, total-insert, total-remove, insert-Distinct}
use edfs.Prelude.{
  ℕ, ◌≡◌, refl, ◌+◌, Bool, ◌&&◌, not, Option, none, some, List, [], ◌∷◌, ◌++◌, Bool-cases,
  Option-cases, List-cases, arith, inl, inr, count, count-append, ◌∙◌,
}

abbrev pub waiters_in : ChunkReply → FetchSession → ℕ
waiters_in w session = count w session.waiters

-- How often a reply channel waits in a session.
abbrev pub waiting : ChunkReply → ChunkFetcher → ℕ
waiting w f = Map.total (waiters_in w) f.sessions

abbrev pub recipients : List (ChunkReply × Option Bytes) → List ChunkReply
recipients [] = []
recipients (sent ∷ rest) = sent.0 ∷ recipients rest

-- How often an answer was sent to a reply channel.
abbrev pub answered_to : ChunkReply → List (ChunkReply × Option Bytes) → ℕ
answered_to w sent = count w (recipients sent)

pub answered_to-answers :
    (w : ChunkReply) (sent : List (ChunkReply × Option Bytes)) (waiters : List ChunkReply)
    (content : Option Bytes)
    → answered_to w (sent ++ answers waiters content) ≡ answered_to w sent + count w waiters
unfolding count
answered_to-answers w [] [] content = refl
answered_to-answers w [] (x ∷ waiters) content =
    ground (arith, answered_to-answers w [] waiters content)
answered_to-answers w (x ∷ sent) waiters content =
    ground (arith, answered_to-answers w sent waiters content)

module _ (crates : Crates) (net : Libp2p) (w : ChunkReply) where
  -- The replies to `w` that are owed and those that were sent.
  abbrev pub owed_or_sent : ChunkFetcher × Ctx crates net → ℕ
  owed_or_sent state = waiting w state.0 + answered_to w state.1.answered

  send_pull-owed_or_sent :
      (hash : ChunkHash) (peer : PeerId) (f : ChunkFetcher) (ctx : Ctx crates net)
      → owed_or_sent (send_pull crates net hash peer f ctx) ≡ owed_or_sent (f, ctx)
  unfolding send_pull
  send_pull-owed_or_sent hash peer f ctx = elim (Option-cases (Map.get hash f.sessions)) [
    | inl n ↦ ground (arith, n)
    | inr (session, e) ↦
        let id : OutboundRequestId = (net.send_request ctx.swarm peer (pull_chunk hash)).0 in
        ground
          (arith, e, total-insert (waiters_in w) hash (note_attempt id peer session) f.sessions)
  ]

  send_all-owed_or_sent :
      (hash : ChunkHash) (peers : List PeerId) (f : ChunkFetcher) (ctx : Ctx crates net)
      → owed_or_sent (send_all crates net hash peers f ctx) ≡ owed_or_sent (f, ctx)
  unfolding send_all
  send_all-owed_or_sent hash [] f ctx = refl
  send_all-owed_or_sent hash (peer ∷ peers) f ctx =
      let (f', ctx') = send_pull crates net hash peer f ctx in
      send_all-owed_or_sent hash peers f' ctx' ∙ send_pull-owed_or_sent hash peer f ctx

  give_up-owed_or_sent :
      (now : ℕ) (hash : ChunkHash) (session : FetchSession) (f : ChunkFetcher)
      (ctx : Ctx crates net)
      → Map.get hash f.sessions ≡ some session
      → Map.Distinct f.sessions
      → owed_or_sent (give_up crates net now hash session f ctx) ≡ owed_or_sent (f, ctx)
  unfolding give_up
  give_up-owed_or_sent now hash session f ctx e d = ground (
    arith,
    e,
    total-remove (waiters_in w) hash f.sessions d,
    answered_to-answers w ctx.answered session.waiters none,
  )

  walk_down-owed_or_sent :
      (now : ℕ) (hash : ChunkHash) (f : ChunkFetcher) (ctx : Ctx crates net)
      → Map.Distinct f.sessions
      → owed_or_sent (walk_down crates net now hash f ctx) ≡ owed_or_sent (f, ctx)
  unfolding walk_down
  walk_down-owed_or_sent now hash f ctx d =
      let targets : FetchSession → List PeerId = λ s.
        next_targets crates net hash (net.connected_peers ctx.swarm) s.tried max_fetch_targets in
      elim (Option-cases (Map.get hash f.sessions)) [
        | inl n ↦ rw (walk_down, n) refl
        | inr (session, e) ↦ elim (List-cases (targets session)) [
          | inl t ↦ rw (walk_down, e, t) (give_up-owed_or_sent now hash session f ctx e d)
          | inr (peer, peers, t) ↦
              rw (walk_down, e, t) (send_all-owed_or_sent hash (peer ∷ peers) f ctx)
        ]
      ]

  pub fetch_chunk-owed_or_sent :
      (now : ℕ) (hash : ChunkHash) (reply : Option ChunkReply) (pin : Bool) (f : ChunkFetcher)
      (ctx : Ctx crates net)
      → Map.Distinct f.sessions
      → owed_or_sent (fetch_chunk crates net now hash reply pin f ctx)
        ≡ owed_or_sent (f, ctx) + count w (waiter_of reply)
  unfolding fetch_chunk
  fetch_chunk-owed_or_sent now hash reply pin f ctx d =
      elim (Option-cases (Map.get hash f.sessions)) [
        | inr (session, e) ↦
            rw (fetch_chunk, e)
              (ground (
                arith,
                e,
                total-insert (waiters_in w) hash (join_session reply pin session) f.sessions,
                count-append w session.waiters (waiter_of reply),
              ))
        | inl n ↦ elim (Bool-cases (not pin && is_blocked now f hash)) [
          | inl b ↦
              rw (fetch_chunk, n, b)
                (ground (arith, answered_to-answers w ctx.answered (waiter_of reply) none))
          | inr b ↦
              let f' : ChunkFetcher = record f {
                sessions = Map.insert hash (open_session reply pin) f.sessions;
              } in
              rw (fetch_chunk, n, b)
                (ground (
                  arith,
                  n,
                  walk_down-owed_or_sent now hash f' ctx
                      (insert-Distinct hash (open_session reply pin) f.sessions d),
                  total-insert (waiters_in w) hash (open_session reply pin) f.sessions,
                ))
        ]
      ]

  walk_if_empty-owed_or_sent :
      (now : ℕ) (hash : ChunkHash) (attempts : Map PeerId) (f : ChunkFetcher) (ctx : Ctx crates net)
      → Map.Distinct f.sessions
      → owed_or_sent (walk_if_empty crates net now hash attempts f ctx) ≡ owed_or_sent (f, ctx)
  walk_if_empty-owed_or_sent now hash [] f ctx d = walk_down-owed_or_sent now hash f ctx d
  walk_if_empty-owed_or_sent now hash (attempt ∷ attempts) f ctx d = refl

  pub on_attempt_failed-owed_or_sent :
      (now : ℕ) (hash : ChunkHash) (id : OutboundRequestId) (f : ChunkFetcher)
      (ctx : Ctx crates net)
      → Map.Distinct f.sessions
      → owed_or_sent (on_attempt_failed crates net now hash id f ctx) ≡ owed_or_sent (f, ctx)
  unfolding on_attempt_failed
  on_attempt_failed-owed_or_sent now hash id f ctx d =
      elim (Option-cases (Map.get hash f.sessions)) [
        | inl n ↦ rw (on_attempt_failed, n) refl
        | inr (session, e) ↦
            let sessions : Map FetchSession =
              Map.insert hash (drop_attempt id session) f.sessions in
            rw (on_attempt_failed, e)
              (ground (
                arith,
                e,
                total-insert (waiters_in w) hash (drop_attempt id session) f.sessions,
                walk_if_empty-owed_or_sent now hash (Map.remove id session.attempts)
                    (record f { sessions = sessions }) ctx
                    (insert-Distinct hash (drop_attempt id session) f.sessions d),
              ))
      ]

  pub handle_failure-owed_or_sent :
      (now : ℕ) (id : OutboundRequestId) (f : ChunkFetcher) (ctx : Ctx crates net)
      → Map.Distinct f.sessions
      → owed_or_sent (handle_failure crates net now id f ctx) ≡ owed_or_sent (f, ctx)
  unfolding handle_failure
  handle_failure-owed_or_sent now id f ctx d = elim (Option-cases (Map.get id f.requests)) [
    | inl n ↦ rw (handle_failure, n) refl
    | inr (hash, r) ↦
        rw (handle_failure, r)
          (on_attempt_failed-owed_or_sent now hash id
            (record f { requests = Map.remove id f.requests }) ctx d)
  ]
