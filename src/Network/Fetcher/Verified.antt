-- ===== src/Network/Fetcher/Verified.antt =====
-- src/network/handlers/chunk.rs: which peers a fetch asks, and what the answer of a peer does.
use edfs.Config.{max_fetch_targets}
use edfs.Crates.{Crates, PeerId}
use edfs.Domain.{Bytes, ChunkHash}
use edfs.Network.Fetcher.{
  FetchSession, ChunkFetcher, Ctx, answers, next_targets, send_all, send_pull, give_up, walk_down,
  walk_if_empty, on_attempt_failed,
}
use edfs.Network.Fetcher.Handling.{Holds, Holds-some}
use edfs.Network.Fetcher.Responses.{store_fetched, complete, handle_response}
use edfs.Network.Protocol.{ChunkReply, OutboundRequestId}
use edfs.Network.Swarm.{Libp2p}
use edfs.Prelude.Map
use edfs.Prelude.Map.{Map, get-remove}
use edfs.Prelude.{
  ℕ, ◌≡◌, refl, ◌==◌, ◌⊎◌, false, Option, none, some, List, [], ◌∷◌, ◌++◌, arith, Bool-cases,
  Option-cases, List-cases, inl, inr, subst, ap,
}

-- The contents among some answers.
abbrev pub contents_of : List (ChunkReply × Option Bytes) → List Bytes
contents_of [] = []
contents_of ((w, none) ∷ sent) = contents_of sent
contents_of ((w, some content) ∷ sent) = content ∷ contents_of sent

contents_of-answers :
    (sent : List (ChunkReply × Option Bytes)) (waiters : List ChunkReply)
    → contents_of (sent ++ answers waiters none) ≡ contents_of sent
contents_of-answers [] [] = refl
contents_of-answers [] (w ∷ waiters) = contents_of-answers [] waiters
contents_of-answers ((w, none) ∷ sent) waiters = contents_of-answers sent waiters
contents_of-answers ((w, some content) ∷ sent) waiters =
    ap (λ rest. content ∷ rest) (contents_of-answers sent waiters)

module _ (crates : Crates) (net : Libp2p) where
  -- A step that stores no data and hands none out.
  pub record NoData (ctx ctx' : Ctx crates net) : Type 0 where
    pub same_filesystem : ctx'.filesystem ≡ ctx.filesystem
    pub same_contents : contents_of ctx'.answered ≡ contents_of ctx.answered

  send_all-NoData :
      (hash : ChunkHash) (peers : List PeerId) (f : ChunkFetcher) (ctx : Ctx crates net)
      → NoData ctx (send_all crates net hash peers f ctx).1
  unfolding send_all send_pull
  send_all-NoData hash [] f ctx = record { same_filesystem = refl; same_contents = refl }
  send_all-NoData hash (peer ∷ peers) f ctx =
      let (f', ctx') = send_pull crates net hash peer f ctx in
      let rest = send_all-NoData hash peers f' ctx' in
      record { same_filesystem = rest.same_filesystem; same_contents = rest.same_contents }

  pub walk_down-NoData :
      (now : ℕ) (hash : ChunkHash) (f : ChunkFetcher) (ctx : Ctx crates net)
      → NoData ctx (walk_down crates net now hash f ctx).1
  unfolding walk_down give_up
  walk_down-NoData now hash f ctx =
      let targets : FetchSession → List PeerId = λ s.
        next_targets crates net hash (net.connected_peers ctx.swarm) s.tried max_fetch_targets in
      elim (Option-cases (Map.get hash f.sessions)) [
        | inl n ↦ rw (walk_down, n) (record { same_filesystem = refl; same_contents = refl })
        | inr (session, e) ↦ elim (List-cases (targets session)) [
          | inl t ↦
              rw (walk_down, e, t)
                (record {
                  same_filesystem = refl;
                  same_contents = contents_of-answers ctx.answered session.waiters;
                })
          | inr (peer, peers, t) ↦ rw (walk_down, e, t) (send_all-NoData hash (peer ∷ peers) f ctx)
        ]
      ]

  walk_if_empty-NoData :
      (now : ℕ) (hash : ChunkHash) (attempts : Map PeerId) (f : ChunkFetcher) (ctx : Ctx crates net)
      → NoData ctx (walk_if_empty crates net now hash attempts f ctx).1
  walk_if_empty-NoData now hash [] f ctx = walk_down-NoData now hash f ctx
  walk_if_empty-NoData now hash (attempt ∷ attempts) f ctx = record {
    same_filesystem = refl;
    same_contents = refl;
  }

  pub on_attempt_failed-NoData :
      (now : ℕ) (hash : ChunkHash) (id : OutboundRequestId) (f : ChunkFetcher)
      (ctx : Ctx crates net)
      → NoData ctx (on_attempt_failed crates net now hash id f ctx).1
  unfolding on_attempt_failed
  on_attempt_failed-NoData now hash id f ctx = elim (Option-cases (Map.get hash f.sessions)) [
    | inl n ↦ rw (on_attempt_failed, n) (record { same_filesystem = refl; same_contents = refl })
    | inr (session, e) ↦
        rw (on_attempt_failed, e)
          (walk_if_empty-NoData now hash (Map.remove id session.attempts) _ ctx)
  ]

  -- What the answer of a peer does: with data of the right digest its session ends and all its waiters get
  -- that data; with other data nothing is stored and no waiter gets any.
  abbrev pub Received :
      ChunkHash → FetchSession → Bytes → Ctx crates net → ChunkFetcher × Ctx crates net → Type 0
  Received hash session content ctx after =
      ((crates.digest content ≡ hash)
        × (after.1.answered ≡ ctx.answered ++ answers session.waiters (some content))
        × (Map.get hash after.0.sessions ≡ none))
      ⊎ (((crates.digest content == hash) ≡ false) × NoData ctx after.1)

  complete-Received :
      (now : ℕ) (hash : ChunkHash) (session : FetchSession) (content : Bytes) (f : ChunkFetcher)
      (ctx : Ctx crates net)
      → crates.digest content ≡ hash
      → Holds
          (Received hash session content ctx)
          (complete crates net now hash session content f ctx)
  unfolding complete
  complete-Received now hash session content f ctx d =
      elim (Option-cases (store_fetched crates net session.pin content ctx.filesystem)) [
        | inl n ↦ rw (complete, n) tt
        | inr ((refused, fs), k) ↦
            rw (complete, k) (inl (d, refl, ground (arith, get-remove hash hash f.sessions)))
      ]

  -- Where a request of a session is answered with data, either the data has the digest that was asked for,
  -- and then all waiters of the session get it and the session ends, or it has not, and then the file system
  -- stays as it is and no reply gets any data.
  pub handle_response-Received :
      (now : ℕ) (id : OutboundRequestId) (hash : ChunkHash) (session : FetchSession)
      (content : Bytes) (f : ChunkFetcher) (ctx : Ctx crates net)
      (after : ChunkFetcher × Ctx crates net)
      → Map.get id f.requests ≡ some hash
      → Map.get hash f.sessions ≡ some session
      → handle_response crates net now id content f ctx ≡ some after
      → Received hash session content ctx after
  unfolding handle_response
  handle_response-Received now id hash session content f ctx after r e done =
      let f' : ChunkFetcher = record f { requests = Map.remove id f.requests } in
      elim (Bool-cases (crates.digest content == hash)) [
        | inr b ↦
            let same : on_attempt_failed crates net now hash id f' ctx ≡ after =
              ground (arith, r, b) in
            inr (
              b,
              subst (λ (a : ChunkFetcher × Ctx crates net). NoData ctx a.1) same
                  (on_attempt_failed-NoData now hash id f' ctx),
            )
        | inl b ↦
            let completed : complete crates net now hash session content f' ctx ≡ some after =
              ground (arith, r, b, e) in
            Holds-some (Received hash session content ctx)
              (complete crates net now hash session content f' ctx) after
              (complete-Received now hash session content f' ctx (ground arith)) completed
      ]
