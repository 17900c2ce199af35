-- ===== src/Network/Dispatcher/Runs.antt =====
-- src/network/dispatcher.rs: the states that a peer reaches from its start, by ticks of its dispatcher
-- and by what FUSE does to the file system between them.
use edfs.Crates.{Crates, PeerId}
use edfs.FileSystem.{FileSystem}
use edfs.Network.Channel.{CommandChannel}
use edfs.Network.Dispatcher.{Selected, event_of, Handlers, Outside, State, tick}
use edfs.Network.Dispatcher.Histories.{asked_by, Both, tick-Both}
use edfs.Network.Exchange.{SyncHandler}
use edfs.Network.Fetcher
use edfs.Network.Fetcher.{Ctx}
use edfs.Network.Fetcher.History
use edfs.Network.Fetcher.History.{history_conserved, history-Sound}
use edfs.Network.Fetcher.Sound.{is_idle}
use edfs.Network.Fetcher.Waiters.{waiting, answered_to}
use edfs.Network.Protocol.{ChunkReply}
use edfs.Network.Replication.Handling
use edfs.Network.Replication.History as Evictions
use edfs.Network.Swarm.{Libp2p, SwarmLaws}
use edfs.Prelude.Map
use edfs.Prelude.{ℕ, ◌≡◌, refl, ◌+◌, false, some, List, [], ◌++◌, inr, count}

module _ (crates : Crates) (net : Libp2p) (chan : CommandChannel) (laws : SwarmLaws net)
    (local : PeerId) where
  open crates use {Replica}

  pub data Run : List ChunkReply → State crates net chan → Type 0 where
    start :
        (sync : SyncHandler) (now : ℕ) (tx : chan.Sender) (ctx : Ctx crates net)
        → ctx.answered ≡ []
        → net.local_peer_id ctx.swarm ≡ local
        → Run [] (
          record {
            sync = sync;
            chunks = Fetcher.new;
            replication = Handling.new crates net chan now tx;
          },
          ctx,
        )
    ticked :
        (o : Outside) (s : Selected) (replies : List ChunkReply)
        (state after : State crates net chan)
        → Run replies state
        → tick crates net chan o s state ≡ some (inr after)
        → Run (replies ++ asked_by (event_of s)) after
    mounted :
        (replies : List ChunkReply) (hs : Handlers (chan.Sender)) (ctx : Ctx crates net)
        (fs : FileSystem Replica)
        → Run replies (hs, ctx)
        → Run replies (hs, record ctx { filesystem = fs })

  run-Both :
      (replies : List ChunkReply) (state : State crates net chan)
      → Run replies state
      → Both crates net chan laws local replies state
  run-Both _ _ (start sync now tx ctx unanswered same) =
      (History.start ctx unanswered, Evictions.start now tx ctx same)
  run-Both _ _ (ticked o s replies state after run done) =
      tick-Both crates net chan laws local o s replies state after (run-Both replies state run) done
  run-Both _ _ (mounted replies hs ctx fs run) =
      let (fetches, evictions) = run-Both replies (hs, ctx) run in
      let changed : Ctx crates net = record ctx { filesystem = fs } in
      (
        History.others replies hs.chunks ctx changed fetches refl (λ id i. i),
        Evictions.others hs.replication ctx changed evictions refl,
      )

  -- In every state that a peer reaches, each reply channel that came with a command waits in a session of
  -- its chunk handler or has been answered, together as often as it came, and every session waits for
  -- some request.
  pub run_conserved :
      (w : ChunkReply) (hash : ℕ) (replies : List ChunkReply) (state : State crates net chan)
      → Run replies state
      → (waiting w state.0.chunks + answered_to w state.1.answered ≡ count w replies)
        × (is_idle (Map.get hash state.0.chunks.sessions) ≡ false)
  run_conserved w hash replies state run =
      let (fetches, evictions) = run-Both replies state run in
      (
        history_conserved crates net laws w replies state.0.chunks state.1 fetches,
        (history-Sound crates net laws replies state.0.chunks state.1 fetches).sessions_busy hash,
      )
