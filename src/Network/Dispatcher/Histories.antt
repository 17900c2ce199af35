-- ===== src/Network/Dispatcher/Histories.antt =====
-- src/network/dispatcher.rs: the handlers that share a swarm and a file system, over the ticks of a
-- `Dispatcher`.
use edfs.Crates.{Crates, PeerId}
use edfs.Network.Channel.{CommandChannel}
use edfs.Network.Dispatcher.{
  Selected, DispatchError, event_of, left_by_sync, left_by_chunks, Handlers, Outside, State,
  exchange, handle_replication, handle_chunks, handle_all, tick_sync, tick_replication, tick_all,
  dispatch, ticked, tick,
}
use edfs.Network.Dispatcher.Quiet.{Quiet, exchange-Quiet, sync_tick-Quiet}
use edfs.Network.Dispatcher.Local.{SameLocal, local-handle}
use edfs.Network.Dispatcher.Probes.{QuietAfter, handle-Quiet, tick-Quiet}
use edfs.Network.Exchange.{SyncHandler, sync_tick}
use edfs.Network.Fetcher.{ChunkFetcher, Ctx}
use edfs.Network.Fetcher.Handling.{asked, Holds, Holds-some}
use edfs.Network.Fetcher.History
use edfs.Network.Fetcher.Responses
use edfs.Network.Protocol.{
  ChunkReply, Event, pull_chunk, check_chunks, pull_missing_operations, request, response, gossip,
  command, swarm_event, tick_event,
}
use edfs.Network.Replication.Handling
use edfs.Network.Replication.Handling.{Handler}
use edfs.Network.Replication.History as Evictions
use edfs.Network.Swarm.{Libp2p, SwarmLaws}
use edfs.Prelude.{
  ◌≡◌, refl, Option, some, Option-cases, List, [], ◌++◌, ◌⊎◌, inl, inr, arith, subst, ap, ◌∙◌,
}

asked-left_by_sync : (e : Event) → asked (left_by_sync e) ≡ asked e
asked-left_by_sync (request (pull_missing_operations ids) reply) = refl
asked-left_by_sync (request (pull_chunk hash) reply) = refl
asked-left_by_sync (request (check_chunks hashes) reply) = refl
asked-left_by_sync tick_event = refl
asked-left_by_sync (swarm_event e) = refl
asked-left_by_sync (response id r) = refl
asked-left_by_sync (gossip content) = refl
asked-left_by_sync (command c) = refl

-- The replies that come with what `select!` chose.
abbrev pub asked_by : DispatchError ⊎ Event → List ChunkReply
asked_by (inl error) = []
asked_by (inr e) = asked e

module _ (crates : Crates) (net : Libp2p) (chan : CommandChannel) (laws : SwarmLaws net)
    (local : PeerId) where
  -- Both handlers with a state that matters are in a state that their histories reach.
  abbrev pub Both : List ChunkReply → State crates net chan → Type 0
  Both replies state =
      History.History crates net laws replies state.0.chunks state.1
      × Evictions.History crates net chan laws local state.0.replication state.1

  others-Both :
      (replies : List ChunkReply) (hs : Handlers (chan.Sender)) (ctx ctx' : Ctx crates net)
      → Quiet crates net laws ctx ctx'
      → Both replies (hs, ctx)
      → Both replies (hs, ctx')
  others-Both replies hs ctx ctx' q b = (
    History.others replies hs.chunks ctx ctx' b.0 q.same_answered q.issued_stay,
    Evictions.others hs.replication ctx ctx' b.1 q.same_local,
  )

  handle_chunks-Both :
      (o : Outside) (e : Event) (replies : List ChunkReply) (hs : Handlers (chan.Sender))
      (ctx : Ctx crates net)
      → Both replies (hs, ctx)
      → Holds (Both (replies ++ asked e)) (handle_chunks crates net chan o e (hs, ctx))
  unfolding handle_chunks
  handle_chunks-Both o e replies hs ctx b =
      let result : Option (ChunkFetcher × Ctx crates net) =
        Responses.handle crates net o.now e hs.chunks ctx in
      elim (Option-cases result) [
        | inl n ↦ rw (handle_chunks, n) tt
        | inr (after, done) ↦
            let same : SameLocal crates net laws ctx after =
              Holds-some (SameLocal crates net laws ctx) result after
                (local-handle crates net laws o.now e hs.chunks ctx) done in
            rw (handle_chunks, done)
              (
                History.handled replies hs.chunks ctx o.now e after b.0 done,
                Evictions.others hs.replication ctx after.1 b.1 same,
              )
      ]

  handle_replication-Both :
      (o : Outside) (e : Event) (replies : List ChunkReply) (hs : Handlers (chan.Sender))
      (ctx : Ctx crates net)
      → Both replies (hs, ctx)
      → Holds (Both replies) (handle_replication crates net chan o e (hs, ctx))
  unfolding handle_replication
  handle_replication-Both o e replies hs ctx b =
      let result : Option (Handler crates net chan × Ctx crates net) =
        Handling.handle crates net chan o.fuel o.now e hs.replication ctx in
      elim (Option-cases result) [
        | inl n ↦ rw (handle_replication, n) tt
        | inr (after, done) ↦
            let q : Quiet crates net laws ctx after.1 =
              Holds-some (QuietAfter crates net laws chan ctx) result after
                (handle-Quiet crates net laws chan o.fuel o.now e hs.replication ctx) done in
            rw (handle_replication, done)
              (
                History.others replies hs.chunks ctx after.1 b.0 q.same_answered q.issued_stay,
                Evictions.handled hs.replication ctx o.fuel o.now e after b.1 done,
              )
      ]

  handle_all-Both :
      (o : Outside) (e : Event) (replies : List ChunkReply) (hs : Handlers (chan.Sender))
      (ctx : Ctx crates net)
      → Both replies (hs, ctx)
      → Holds (Both (replies ++ asked e)) (handle_all crates net chan o e (hs, ctx))
  unfolding handle_all
  handle_all-Both o e replies hs ctx b =
      let exchanged : Ctx crates net = exchange crates net chan o e ctx in
      let e' : Event = left_by_sync e in
      let middle : Option (State crates net chan) =
        handle_chunks crates net chan o e' (hs, exchanged) in
      let first : Holds (Both (replies ++ asked e)) middle =
        subst (λ asks. Holds (Both (replies ++ asks)) middle) (asked-left_by_sync e)
          (handle_chunks-Both o e' replies hs exchanged (
            others-Both replies hs ctx exchanged (exchange-Quiet crates net laws o.now_at e ctx)
              b)) in
      elim (Option-cases middle) [
        | inl n ↦ rw (handle_all, n) tt
        | inr ((hs', ctx'), done) ↦
            rw (handle_all, done)
              (handle_replication-Both o (left_by_chunks e') (replies ++ asked e) hs' ctx'
                (Holds-some (Both (replies ++ asked e)) middle (hs', ctx') first done))
      ]

  tick_sync-Both :
      (o : Outside) (replies : List ChunkReply) (hs : Handlers (chan.Sender)) (ctx : Ctx crates net)
      → Both replies (hs, ctx)
      → Holds (Both replies) (tick_sync crates net chan o (hs, ctx))
  unfolding tick_sync
  tick_sync-Both o replies hs ctx b =
      let result : Option (SyncHandler × Ctx crates net) =
        sync_tick crates net o.now o.random hs.sync ctx in
      elim (Option-cases result) [
        | inl n ↦ rw (tick_sync, n) tt
        | inr (after, done) ↦
            rw (tick_sync, done)
              (others-Both replies hs ctx after.1
                (Holds-some (λ a. Quiet crates net laws ctx a.1) result after
                  (sync_tick-Quiet crates net laws o.now o.random hs.sync ctx) done)
                b)
      ]

  tick_replication-Both :
      (o : Outside) (replies : List ChunkReply) (hs : Handlers (chan.Sender)) (ctx : Ctx crates net)
      → Both replies (hs, ctx)
      → Holds (Both replies) (tick_replication crates net chan o (hs, ctx))
  unfolding tick_replication
  tick_replication-Both o replies hs ctx b =
      let result : Option (Handler crates net chan × Ctx crates net) =
        Handling.tick crates net chan o.fuel o.now hs.replication ctx in
      elim (Option-cases result) [
        | inl n ↦ rw (tick_replication, n) tt
        | inr (after, done) ↦
            let q : Quiet crates net laws ctx after.1 =
              Holds-some (QuietAfter crates net laws chan ctx) result after
                (tick-Quiet crates net laws chan o.fuel o.now hs.replication ctx) done in
            rw (tick_replication, done)
              (
                History.others replies hs.chunks ctx after.1 b.0 q.same_answered q.issued_stay,
                Evictions.ticked hs.replication ctx o.fuel o.now after b.1 done,
              )
      ]

  tick_all-Both :
      (o : Outside) (replies : List ChunkReply) (state : State crates net chan)
      → Both replies state
      → Holds (Both replies) (tick_all crates net chan o state)
  unfolding tick_all
  tick_all-Both o replies (hs, ctx) b =
      let middle : Option (State crates net chan) = tick_sync crates net chan o (hs, ctx) in
      elim (Option-cases middle) [
        | inl n ↦ rw (tick_all, n) tt
        | inr ((hs', ctx'), done) ↦
            rw (tick_all, done)
              (tick_replication-Both o replies hs' ctx' (
                Holds-some (Both replies) middle (hs', ctx') (tick_sync-Both o replies hs ctx b)
                  done))
      ]

  dispatch-Both :
      (o : Outside) (e : Event) (replies : List ChunkReply) (state : State crates net chan)
      → Both replies state
      → Holds (Both (replies ++ asked e)) (dispatch crates net chan o e state)
  unfolding dispatch
  dispatch-Both o e replies (hs, ctx) b =
      let middle : Option (State crates net chan) = handle_all crates net chan o e (hs, ctx) in
      elim (Option-cases middle) [
        | inl n ↦ rw (dispatch, n) tt
        | inr (state, done) ↦
            rw (dispatch, done)
              (tick_all-Both o (replies ++ asked e) state (
                Holds-some (Both (replies ++ asked e)) middle state
                  (handle_all-Both o e replies hs ctx b) done))
      ]

  ticked-Both :
      (o : Outside) (e : DispatchError ⊎ Event) (replies : List ChunkReply)
      (state after : State crates net chan)
      → Both replies state
      → ticked crates net chan o e state ≡ some (inr after)
      → Both (replies ++ asked_by e) after
  ticked-Both o (inl error) replies state after b done = absurd (ground arith)
  ticked-Both o (inr e) replies state after b done =
      let result : Option (State crates net chan) = dispatch crates net chan o e state in
      elim (Option-cases result) [
        | inl n ↦ absurd (ground (arith, n))
        | inr (after', r) ↦
            let same : after' ≡ after = ground (arith, r) in
            Holds-some (Both (replies ++ asked e)) result after (dispatch-Both o e replies state b)
              (r ∙ ap {B = Option (State crates net chan)} (λ a. some a) same)
      ]

  -- A tick that ends without an error takes the two handlers along their histories: to `ChunkHandler`
  -- every other handler is one that answers no reply and forgets no request, to `ReplicationHandler`
  -- one that keeps the peer's name, and the replies of the event are asked once.
  pub tick-Both :
      (o : Outside) (s : Selected) (replies : List ChunkReply) (state after : State crates net chan)
      → Both replies state
      → tick crates net chan o s state ≡ some (inr after)
      → Both (replies ++ asked_by (event_of s)) after
  unfolding tick
  tick-Both o s replies state after b done = ticked-Both o (event_of s) replies state after b done
