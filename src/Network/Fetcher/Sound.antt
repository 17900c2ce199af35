-- ===== src/Network/Fetcher/Sound.antt =====
-- src/network/handlers/chunk.rs: the sessions of a `ChunkFetcher` and its requests agree.
pub mod Steps
use edfs.Crates.{Crates, PeerId}
use edfs.Domain.{ChunkHash}
use edfs.Network.Fetcher.{
  FetchSession, ChunkFetcher, note_attempt, note_attempt_if_found, send_pull, send_all, give_up,
  walk_targets, walk_down, next_targets, Ctx, open_session, join_session, fetch_chunk, is_blocked,
  drop_attempt, walk_if_empty, on_attempt_failed, handle_failure,
}
use edfs.Network.Protocol.{ChunkReply, OutboundRequestId, pull_chunk}
use edfs.Network.Swarm.{Libp2p, SwarmLaws}
use edfs.Prelude.Map
use edfs.Prelude.Map.{
  Map, is_some, get-nil, get-insert, get-remove, insert-Distinct, remove-Distinct,
}
use edfs.Prelude.{
  ℕ, ◌≡◌, refl, ◌==◌, Bool, true, false, ◌||◌, ◌&&◌, not, Option, none, some, List, [], ◌∷◌,
  if◌then◌else◌, Bool-cases, Option-cases, List-cases, arith, inl, inr,
}

abbrev pub attempts_of : Option FetchSession → Map PeerId
attempts_of none = []
attempts_of (some session) = session.attempts

abbrev pub is_empty {ℓ} : {A : Type ℓ} → List A → Bool
is_empty [] = true
is_empty (x ∷ xs) = false

insert-is_empty {ℓ} : {V : Type ℓ} (k : ℕ) (v : V) (m : Map V) → is_empty (Map.insert k v m) ≡ false
unfolding Map.insert
insert-is_empty k v [] = refl
insert-is_empty k v ((j, w) ∷ m) = ground arith

-- A session that waits for no request.
abbrev pub is_idle : Option FetchSession → Bool
is_idle none = false
is_idle (some session) = is_empty session.attempts

abbrev pub asks_for : ChunkHash → Option ChunkHash → Bool
asks_for hash none = false
asks_for hash (some h) = h == hash

module _ (crates : Crates) (net : Libp2p) (laws : SwarmLaws net) where
  -- A request is noted for a hash where the session of that hash has an attempt of its identifier,
  -- and its identifier was handed out.
  pub record Linked (f : ChunkFetcher) (swarm : net.Swarm) : Type 0 where
    pub sessions-Distinct : Map.Distinct f.sessions
    pub attempts_noted :
        (hash : ChunkHash) (id : OutboundRequestId)
        → is_some (Map.get id (attempts_of (Map.get hash f.sessions)))
          ≡ asks_for hash (Map.get id f.requests)
    pub requests_issued :
        (id : OutboundRequestId)
        → is_some (Map.get id f.requests) ≡ true
        → laws.is_issued swarm id ≡ true

  -- Every session waits for a request, so that it can go on.
  pub record Sound (f : ChunkFetcher) (swarm : net.Swarm) : Type 0 where
    pub linked : Linked f swarm
    pub sessions_busy : (hash : ChunkHash) → is_idle (Map.get hash f.sessions) ≡ false

  get-send_pull :
      (hash h : ChunkHash) (peer : PeerId) (session : FetchSession) (f : ChunkFetcher)
      (ctx : Ctx crates net)
      → Map.get hash f.sessions ≡ some session
      → Map.get h (send_pull crates net hash peer f ctx).0.sessions ≡ (
          if hash == h
          then some
              (note_attempt (net.send_request ctx.swarm peer (pull_chunk hash)).0 peer session)
          else Map.get h f.sessions)
  unfolding send_pull
  get-send_pull hash h peer session f ctx e =
      let id : OutboundRequestId = (net.send_request ctx.swarm peer (pull_chunk hash)).0 in
      ground (arith, e, get-insert hash h (note_attempt id peer session) f.sessions)

  unknown_id :
      (f : ChunkFetcher) (ctx : Ctx crates net) (hash : ChunkHash) (peer : PeerId)
      → Linked f ctx.swarm
      → is_some (Map.get (net.send_request ctx.swarm peer (pull_chunk hash)).0 f.requests) ≡ false
  unknown_id f ctx hash peer l = ground (
    arith,
    l.requests_issued (net.send_request ctx.swarm peer (pull_chunk hash)).0,
    laws.send_request_fresh ctx.swarm peer (pull_chunk hash),
  )

  send_pull-Linked :
      (hash : ChunkHash) (peer : PeerId) (session : FetchSession) (f : ChunkFetcher)
      (ctx : Ctx crates net)
      → Map.get hash f.sessions ≡ some session
      → Linked f ctx.swarm
      → Linked
          (send_pull crates net hash peer f ctx).0
          (send_pull crates net hash peer f ctx).1.swarm
  unfolding send_pull
  send_pull-Linked hash peer session f ctx e l =
      let id : OutboundRequestId = (net.send_request ctx.swarm peer (pull_chunk hash)).0 in
      record {
        sessions-Distinct = ground (
          arith,
          e,
          insert-Distinct hash (note_attempt id peer session) f.sessions l.sessions-Distinct,
        );
        attempts_noted = λ h j. ground (
          arith,
          e,
          get-insert hash h (note_attempt id peer session) f.sessions,
          get-insert id j peer session.attempts,
          get-insert id j hash f.requests,
          unknown_id f ctx hash peer l,
          l.attempts_noted h j,
          l.attempts_noted h id,
        );
        requests_issued = λ j i. ground (
          arith,
          get-insert id j hash f.requests,
          l.requests_issued j,
          laws.issued-send_request ctx.swarm peer (pull_chunk hash) j,
        );
      }

  -- The sends of `walk_down`: the session of `hash` is the one that may still be idle before.
  pub send_all-Sound :
      (hash : ChunkHash) (peers : List PeerId) (f : ChunkFetcher) (ctx : Ctx crates net)
      → is_some (Map.get hash f.sessions) ≡ true
      → Linked f ctx.swarm
      → ((h : ChunkHash) → (h == hash) ≡ false → is_idle (Map.get h f.sessions) ≡ false)
      → (is_idle (Map.get hash f.sessions) && is_empty peers) ≡ false
      → Sound
          (send_all crates net hash peers f ctx).0
          (send_all crates net hash peers f ctx).1.swarm
  unfolding send_all
  send_all-Sound hash [] f ctx p l others busy = record {
    linked = l;
    sessions_busy = λ h. ground (arith, others h);
  }
  send_all-Sound hash (peer ∷ peers) f ctx p l others busy =
      elim (Option-cases (Map.get hash f.sessions)) [
        | inl n ↦ absurd (ground (arith, n))
        | inr (session, e) ↦
            let id : OutboundRequestId = (net.send_request ctx.swarm peer (pull_chunk hash)).0 in
            let kept : (h : ChunkHash) → _ = λ h. get-send_pull hash h peer session f ctx e in
            send_all-Sound hash peers (send_pull crates net hash peer f ctx).0
              (send_pull crates net hash peer f ctx).1 (ground (arith, kept hash))
              (send_pull-Linked hash peer session f ctx e l)
              (λ h d. ground (arith, kept h, others h))
              (ground (arith, kept hash, insert-is_empty id peer session.attempts))
      ]

  pub give_up-Sound :
      (now : ℕ) (hash : ChunkHash) (session : FetchSession) (f : ChunkFetcher)
      (ctx : Ctx crates net)
      → attempts_of (Map.get hash f.sessions) ≡ []
      → Linked f ctx.swarm
      → ((h : ChunkHash) → (h == hash) ≡ false → is_idle (Map.get h f.sessions) ≡ false)
      → Sound
          (give_up crates net now hash session f ctx).0
          (give_up crates net now hash session f ctx).1.swarm
  unfolding give_up
  give_up-Sound now hash session f ctx e l others = record {
    linked = record {
      sessions-Distinct = remove-Distinct hash f.sessions l.sessions-Distinct;
      attempts_noted = λ h j.
          ground
            (arith, e, get-remove hash h f.sessions, l.attempts_noted h j, get-nil {V = PeerId} j);
      requests_issued = l.requests_issued;
    };
    sessions_busy = λ h. ground (arith, get-remove hash h f.sessions, others h);
  }
