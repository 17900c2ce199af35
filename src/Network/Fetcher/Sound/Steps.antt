-- ===== src/Network/Fetcher/Sound/Steps.antt =====
-- src/network/handlers/chunk.rs: each step of a `ChunkFetcher` keeps its sessions and requests in
-- agreement, and no session without a request to wait for.
use edfs.Crates.{Crates, PeerId}
use edfs.Domain.{ChunkHash}
use edfs.Network.Fetcher.{
  FetchSession, ChunkFetcher, walk_down, next_targets, Ctx, open_session, join_session, fetch_chunk,
  is_blocked, drop_attempt, walk_if_empty, on_attempt_failed, handle_failure, drop_requests,
}
use edfs.Config.{max_fetch_targets}
use edfs.Network.Fetcher.Sound.{Linked, Sound, attempts_of, is_idle, give_up-Sound, send_all-Sound}
use edfs.Network.Protocol.{ChunkReply, OutboundRequestId}
use edfs.Network.Swarm.{Libp2p, SwarmLaws}
use edfs.Prelude.Map
use edfs.Prelude.Map.{
  Map, is_some, get-nil, get-insert, get-remove, insert-Distinct, remove-Distinct,
}
use edfs.Prelude.{
  ℕ, ◌≡◌, ◌==◌, Bool, false, ◌&&◌, not, Option, none, some, List, [], ◌∷◌, if◌then◌else◌,
  Bool-cases, Option-cases, List-cases, arith, inl, inr,
}

module _ (crates : Crates) (net : Libp2p) (laws : SwarmLaws net) where
  -- Every session but that of `hash` waits for a request.
  abbrev OthersBusy : ChunkHash → ChunkFetcher → Type 0
  OthersBusy hash f = (h : ChunkHash) → (h == hash) ≡ false → is_idle (Map.get h f.sessions) ≡ false

  walk_down-Sound :
      (now : ℕ) (hash : ChunkHash) (f : ChunkFetcher) (ctx : Ctx crates net)
      → attempts_of (Map.get hash f.sessions) ≡ []
      → Linked crates net laws f ctx.swarm
      → OthersBusy hash f
      → Sound crates net laws
          (walk_down crates net now hash f ctx).0
          (walk_down crates net now hash f ctx).1.swarm
  unfolding walk_down
  walk_down-Sound now hash f ctx idle l others =
      let targets : FetchSession → List PeerId = λ s.
        next_targets crates net hash (net.connected_peers ctx.swarm) s.tried max_fetch_targets in
      elim (Option-cases (Map.get hash f.sessions)) [
        | inl n ↦
            rw (walk_down, n)
              (record { linked = l; sessions_busy = λ h. ground (arith, n, others h) })
        | inr (session, e) ↦ elim (List-cases (targets session)) [
          | inl t ↦
              rw (walk_down, e, t)
                (give_up-Sound crates net laws now hash session f ctx idle l others)
          | inr (peer, peers, t) ↦
              rw (walk_down, e, t)
                (send_all-Sound crates net laws hash (peer ∷ peers) f ctx (ground (arith, e)) l
                  others (ground arith))
        ]
      ]

  insert-Linked :
      (hash : ChunkHash) (session : FetchSession) (f : ChunkFetcher) (swarm : net.Swarm)
      → session.attempts ≡ attempts_of (Map.get hash f.sessions)
      → Linked crates net laws f swarm
      → Linked crates net laws (record f { sessions = Map.insert hash session f.sessions }) swarm
  insert-Linked hash session f swarm e l = record {
    sessions-Distinct = insert-Distinct hash session f.sessions l.sessions-Distinct;
    attempts_noted =
        λ h j. ground (arith, e, get-insert hash h session f.sessions, l.attempts_noted h j);
    requests_issued = l.requests_issued;
  }

  pub fetch_chunk-Sound :
      (now : ℕ) (hash : ChunkHash) (reply : Option ChunkReply) (pin : Bool) (f : ChunkFetcher)
      (ctx : Ctx crates net)
      → Sound crates net laws f ctx.swarm
      → Sound crates net laws
          (fetch_chunk crates net now hash reply pin f ctx).0
          (fetch_chunk crates net now hash reply pin f ctx).1.swarm
  unfolding fetch_chunk
  fetch_chunk-Sound now hash reply pin f ctx s = elim (Option-cases (Map.get hash f.sessions)) [
    | inr (session, e) ↦
        rw (fetch_chunk, e)
          (record {
            linked =
                insert-Linked hash (join_session reply pin session) f ctx.swarm (rw e) s.linked;
            sessions_busy = λ h. ground (
              arith,
              e,
              get-insert hash h (join_session reply pin session) f.sessions,
              s.sessions_busy h,
            );
          })
    | inl n ↦ elim (Bool-cases (not pin && is_blocked now f hash)) [
      | inl b ↦ rw (fetch_chunk, n, b) s
      | inr b ↦
          rw (fetch_chunk, n, b)
            (walk_down-Sound now hash
              (record f { sessions = Map.insert hash (open_session reply pin) f.sessions }) ctx
              (ground (arith, get-insert hash hash (open_session reply pin) f.sessions))
              (insert-Linked hash (open_session reply pin) f ctx.swarm (rw n) s.linked)
              (λ h d.
                ground (
                  arith,
                  get-insert hash h (open_session reply pin) f.sessions,
                  s.sessions_busy h,
                )))
    ]
  ]

  -- A request is forgotten together with the attempt of its session.
  drop_attempt-Linked :
      (hash : ChunkHash) (id : OutboundRequestId) (session : FetchSession) (f : ChunkFetcher)
      (swarm : net.Swarm)
      → Map.get id f.requests ≡ some hash
      → Map.get hash f.sessions ≡ some session
      → Linked crates net laws f swarm
      → Linked crates net laws
          (record {
            sessions = Map.insert hash (drop_attempt id session) f.sessions;
            requests = Map.remove id f.requests;
            blocked_until = f.blocked_until;
          })
          swarm
  drop_attempt-Linked hash id session f swarm r e l = record {
    sessions-Distinct =
        insert-Distinct hash (drop_attempt id session) f.sessions l.sessions-Distinct;
    attempts_noted = λ h j. ground (
      arith,
      r,
      e,
      get-insert hash h (drop_attempt id session) f.sessions,
      get-remove id j session.attempts,
      get-remove id j f.requests,
      l.attempts_noted h j,
    );
    requests_issued = λ j i. ground (arith, get-remove id j f.requests, l.requests_issued j);
  }

  walk_if_empty-Sound :
      (now : ℕ) (hash : ChunkHash) (attempts : Map PeerId) (f : ChunkFetcher) (ctx : Ctx crates net)
      → attempts_of (Map.get hash f.sessions) ≡ attempts
      → Linked crates net laws f ctx.swarm
      → OthersBusy hash f
      → Sound crates net laws
          (walk_if_empty crates net now hash attempts f ctx).0
          (walk_if_empty crates net now hash attempts f ctx).1.swarm
  walk_if_empty-Sound now hash [] f ctx e l others = walk_down-Sound now hash f ctx e l others
  walk_if_empty-Sound now hash (attempt ∷ attempts) f ctx e l others = record {
    linked = l;
    sessions_busy = λ h. ground (arith, e, others h);
  }

  -- `on_attempt_failed`, called after the request was removed.
  pub on_attempt_failed-Sound :
      (now : ℕ) (hash : ChunkHash) (id : OutboundRequestId) (f : ChunkFetcher)
      (ctx : Ctx crates net)
      → Map.get id f.requests ≡ some hash
      → Sound crates net laws f ctx.swarm
      → Sound crates net laws
          (on_attempt_failed crates net now hash id
            (record f { requests = Map.remove id f.requests })
            ctx).0
          (on_attempt_failed crates net now hash id
            (record f { requests = Map.remove id f.requests })
            ctx).1.swarm
  unfolding on_attempt_failed
  on_attempt_failed-Sound now hash id f ctx r s = elim (Option-cases (Map.get hash f.sessions)) [
    | inl n ↦
        absurd (ground (arith, n, r, s.linked.attempts_noted hash id, get-nil {V = PeerId} id))
    | inr (session, e) ↦
        let sessions : Map FetchSession = Map.insert hash (drop_attempt id session) f.sessions in
        let f' : ChunkFetcher = record f {
          requests = Map.remove id f.requests;
          sessions = sessions;
        } in
        let l = drop_attempt-Linked hash id session f ctx.swarm r e s.linked in
        let kept : (h : ChunkHash) → _ =
          λ h. get-insert hash h (drop_attempt id session) f.sessions in
        rw (on_attempt_failed, e)
          (walk_if_empty-Sound now hash (Map.remove id session.attempts) f' ctx
            (ground (arith, kept hash)) l (λ h d. ground (arith, kept h, s.sessions_busy h)))
  ]

  pub handle_failure-Sound :
      (now : ℕ) (id : OutboundRequestId) (f : ChunkFetcher) (ctx : Ctx crates net)
      → Sound crates net laws f ctx.swarm
      → Sound crates net laws
          (handle_failure crates net now id f ctx).0
          (handle_failure crates net now id f ctx).1.swarm
  unfolding handle_failure
  handle_failure-Sound now id f ctx s = elim (Option-cases (Map.get id f.requests)) [
    | inl n ↦ rw (handle_failure, n) s
    | inr (hash, r) ↦ rw (handle_failure, r) (on_attempt_failed-Sound now hash id f ctx r s)
  ]

  get-drop_requests :
      (attempts : Map PeerId) (requests : Map ChunkHash) (j : OutboundRequestId)
      → Map.get j (drop_requests attempts requests)
        ≡ (if is_some (Map.get j attempts) then none else Map.get j requests)
  unfolding drop_requests Map.get
  get-drop_requests [] requests j = ground arith
  get-drop_requests ((id, peer) ∷ attempts) requests j =
      ground
        (arith, get-drop_requests attempts (Map.remove id requests) j, get-remove id j requests)

  -- A session ends together with the requests it waited for.
  pub end_session-Sound :
      (hash : ChunkHash) (id : OutboundRequestId) (session : FetchSession) (blocked : Map ℕ)
      (f : ChunkFetcher) (swarm : net.Swarm)
      → Map.get id f.requests ≡ some hash
      → Map.get hash f.sessions ≡ some session
      → Sound crates net laws f swarm
      → Sound crates net laws
          (record {
            sessions = Map.remove hash f.sessions;
            requests = drop_requests session.attempts (Map.remove id f.requests);
            blocked_until = blocked;
          })
          swarm
  end_session-Sound hash id session blocked f swarm r e s =
      let left : (j : OutboundRequestId) → _ =
        λ j. get-drop_requests session.attempts (Map.remove id f.requests) j in
      record {
        linked = record {
          sessions-Distinct = remove-Distinct hash f.sessions s.linked.sessions-Distinct;
          attempts_noted = λ h j. ground (
            arith,
            r,
            e,
            left j,
            get-remove id j f.requests,
            get-remove hash h f.sessions,
            s.linked.attempts_noted h j,
            s.linked.attempts_noted hash j,
            get-nil {V = PeerId} j,
          );
          requests_issued =
              λ j i. ground (arith, left j, get-remove id j f.requests, s.linked.requests_issued j);
        };
        sessions_busy = λ h. ground (arith, get-remove hash h f.sessions, s.sessions_busy h);
      }
