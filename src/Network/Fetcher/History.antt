-- ===== src/Network/Fetcher/History.antt =====
-- src/network/handlers/chunk.rs: a `ChunkHandler` over the events it has handled.
use edfs.Crates.{Crates, PeerId}
use edfs.Domain.{ChunkHash}
use edfs.Network.Fetcher.{FetchSession, ChunkFetcher, new, Ctx}
use edfs.Network.Fetcher.Responses.{handle}
use edfs.Network.Fetcher.Sound.{Sound}
use edfs.Network.Fetcher.Waiters.{waiting, waiters_in, answered_to, owed_or_sent}
use edfs.Network.Fetcher.Handling.{asked, Holds-some, Kept, handle-Kept}
use edfs.Network.Protocol.{ChunkReply, OutboundRequestId, Event}
use edfs.Network.Swarm.{Libp2p, SwarmLaws}
use edfs.Prelude.Map
use edfs.Prelude.Map.{Map, is_some, weight, get-nil, total-nil, total-eq-zero}
use edfs.Prelude.{
  ℕ, ◌≡◌, ◌+◌, true, none, some, List, [], ◌∷◌, ◌++◌, Option-cases, List-cases, arith, inl, inr,
  count, count-nil, count-append, ap,
}

get-head {ℓ} : {V : Type ℓ} (k : ℕ) (v : V) (m : Map V) → Map.get k ((k, v) ∷ m) ≡ some v
unfolding Map.get
get-head k v m = ground arith

module _ (crates : Crates) (net : Libp2p) (laws : SwarmLaws net) where
  -- The states of a handler that was given the events whose replies are listed. Between its events
  -- the other handlers change the swarm and the file system; they answer no reply for a chunk.
  pub data History : List ChunkReply → ChunkFetcher → Ctx crates net → Type 0 where
    start : (ctx : Ctx crates net) → ctx.answered ≡ [] → History [] new ctx
    handled :
        (replies : List ChunkReply) (f : ChunkFetcher) (ctx : Ctx crates net) (now : ℕ) (e : Event)
        (after : ChunkFetcher × Ctx crates net)
        → History replies f ctx
        → handle crates net now e f ctx ≡ some after
        → History (replies ++ asked e) after.0 after.1
    others :
        (replies : List ChunkReply) (f : ChunkFetcher) (ctx ctx' : Ctx crates net)
        → History replies f ctx
        → ctx'.answered ≡ ctx.answered
        → ((id : OutboundRequestId)
            → laws.is_issued ctx.swarm id ≡ true
            → laws.is_issued ctx'.swarm id ≡ true)
        → History replies f ctx'

  new-Sound : (swarm : net.Swarm) → Sound crates net laws new swarm
  unfolding new
  new-Sound swarm = record {
    linked = record {
      sessions-Distinct = tt;
      attempts_noted = λ h j.
          ground (
            arith,
            get-nil {V = FetchSession} h,
            get-nil {V = PeerId} j,
            get-nil {V = ChunkHash} j,
          );
      requests_issued = λ j i. ground (arith, get-nil {V = ChunkHash} j);
    };
    sessions_busy = λ h. ground (arith, get-nil {V = FetchSession} h);
  }

  history-Kept :
      (w : ChunkReply) (replies : List ChunkReply) (f : ChunkFetcher) (ctx : Ctx crates net)
      → History replies f ctx
      → Kept crates net laws w (count w replies) (f, ctx)
  unfolding new
  history-Kept w _ _ _ (start ctx none_sent) =
      (new-Sound ctx.swarm, ground (arith, none_sent, count-nil w, total-nil (waiters_in w)))
  history-Kept w _ _ _ (handled before f' ctx' now e after h done) =
      let earlier : Kept crates net laws w (count w before) (f', ctx') =
        history-Kept w before f' ctx' h in
      let kept : Kept crates net laws w (owed_or_sent crates net w (f', ctx') + count w (asked e))
          after =
        Holds-some
          (Kept crates net laws w (owed_or_sent crates net w (f', ctx') + count w (asked e)))
          (handle crates net now e f' ctx') after
          (handle-Kept crates net laws w now e f' ctx' earlier.0) done in
      (kept.0, ground (arith, kept.1, earlier.1, count-append w before (asked e)))
  history-Kept w _ _ _ (others replies f ctx' ctx h same grows) =
      let earlier : Kept crates net laws w (count w replies) (f, ctx') =
        history-Kept w replies f ctx' h in
      (
        record {
          linked = record {
            sessions-Distinct = earlier.0.linked.sessions-Distinct;
            attempts_noted = earlier.0.linked.attempts_noted;
            requests_issued = λ j i. grows j (earlier.0.linked.requests_issued j i);
          };
          sessions_busy = earlier.0.sessions_busy;
        },
        ground (arith, earlier.1, ap (answered_to w) same),
      )

  -- At every point of a handler's life, each reply channel that was handed in with a command waits in
  -- a session or has been answered, as often as it was handed in: none is dropped or answered twice.
  pub history_conserved :
      (w : ChunkReply) (replies : List ChunkReply) (f : ChunkFetcher) (ctx : Ctx crates net)
      → History replies f ctx
      → waiting w f + answered_to w ctx.answered ≡ count w replies
  history_conserved w replies f ctx h = (history-Kept w replies f ctx h).1

  -- At every point of a handler's life sessions and requests agree and every session waits for some
  -- request.
  pub history-Sound :
      (replies : List ChunkReply) (f : ChunkFetcher) (ctx : Ctx crates net)
      → History replies f ctx
      → Sound crates net laws f ctx.swarm
  history-Sound replies f ctx h = (history-Kept 0 replies f ctx h).0

  -- Where no request is outstanding, no session is left.
  no_session :
      (f : ChunkFetcher) (swarm : net.Swarm) (hash : ChunkHash)
      → Sound crates net laws f swarm
      → ((id : OutboundRequestId) → Map.get id f.requests ≡ none)
      → Map.get hash f.sessions ≡ none
  no_session f swarm hash s quiet = elim (Option-cases (Map.get hash f.sessions)) [
    | inl n ↦ n
    | inr (session, e) ↦ elim (List-cases session.attempts) [
      | inl t ↦ absurd (ground (arith, e, t, s.sessions_busy hash))
      | inr ((id, peer), attempts, t) ↦ absurd (
          ground
            (arith, e, t, quiet id, s.linked.attempts_noted hash id, get-head id peer attempts))
    ]
  ]

  -- Once no request is outstanding, every reply channel has been answered as often as it was handed in.
  pub history_answered :
      (w : ChunkReply) (replies : List ChunkReply) (f : ChunkFetcher) (ctx : Ctx crates net)
      → History replies f ctx
      → ((id : OutboundRequestId) → Map.get id f.requests ≡ none)
      → answered_to w ctx.answered ≡ count w replies
  history_answered w replies f ctx h quiet =
      let s : Sound crates net laws f ctx.swarm = history-Sound replies f ctx h in
      let nobody : waiting w f ≡ 0 =
        total-eq-zero (waiters_in w) f.sessions s.linked.sessions-Distinct
          (λ k. ground (arith, no_session f ctx.swarm k s quiet)) in
      ground (arith, nobody, history_conserved w replies f ctx h)
