-- ===== src/Network/Fetcher.antt =====
-- src/network/handlers/chunk.rs: `ChunkFetcher`, a session for each chunk that is being fetched.
-- A call that reads the clock takes its value as `now`.
pub mod Responses
pub mod Handling
pub mod History
pub mod Sound
pub mod Waiters
pub mod Storing
pub mod Targets
pub mod Verified
use edfs.Config.{max_fetch_targets, chunk_fetch_backoff}
use edfs.Crates.{Crates, PeerId}
use edfs.Domain.{Bytes, ChunkHash}
use edfs.FileSystem.{FileSystem}
use edfs.FileSystem.Chunks.{pin_chunk, cache_chunk, chunk}
use edfs.Hrw.{top_peers}
use edfs.Network.Protocol.{
  ChunkReply, OutboundRequestId, Request, Response, pull_chunk, check_chunks,
  pull_missing_operations, chunk_content, held_chunks, missing_operations, failure, chunk_not_found,
  Event, SwarmCommand, fetch_command, broadcast_operations, command, request, response,
  outbound_failure,
}
use edfs.Network.Swarm.{Libp2p, EventContext}
use edfs.Prelude.Map
use edfs.Prelude.Map.{Map, is_some}
use edfs.Prelude.{
  ℕ, ◌+◌, ◌==◌, Bool, true, false, not, ◌||◌, ◌&&◌, ltb, Option, none, some, List, [], ◌∷◌, ◌++◌,
  map, mem, length, take, Result, ok, err, panic, set_insert, if◌then◌else◌,
}

pub record FetchSession : Type 0 where
  pub waiters : List ChunkReply
  pub attempts : Map PeerId
  pub tried : List PeerId
  pub pin : Bool

pub record ChunkFetcher : Type 0 where
  pub sessions : Map FetchSession
  pub requests : Map ChunkHash
  pub blocked_until : Map ℕ

unfoldable pub new : ChunkFetcher
new = record { sessions = []; requests = []; blocked_until = [] }

-- `filter(|peer| !tried.contains(peer))`.
unfoldable pub untried : List PeerId → List PeerId → List PeerId
untried tried [] = []
untried tried (peer ∷ peers) =
    let rest = untried tried peers in if mem peer tried then rest else peer ∷ rest

abbrev pub waiter_of : Option ChunkReply → List ChunkReply
waiter_of none = []
waiter_of (some reply) = reply ∷ []

-- The sends of one answer to each of some waiters.
abbrev pub answers : List ChunkReply → Option Bytes → List (ChunkReply × Option Bytes)
answers [] answer = []
answers (w ∷ ws) answer = (w, answer) ∷ answers ws answer

-- `is_some_and(|until| *until > Instant::now())`.
abbrev pub is_later : ℕ → Option ℕ → Bool
is_later now none = false
is_later now (some until) = ltb now until

unfoldable pub is_blocked : ℕ → ChunkFetcher → ChunkHash → Bool
is_blocked now f hash = is_later now (Map.get hash f.blocked_until)

-- `self.requests.remove(attempt_id)` for each attempt.
unfoldable pub drop_requests : Map PeerId → Map ChunkHash → Map ChunkHash
drop_requests [] requests = requests
drop_requests ((id, peer) ∷ attempts) requests = drop_requests attempts (Map.remove id requests)

-- The update of the session for a request that was sent.
abbrev pub note_attempt : OutboundRequestId → PeerId → FetchSession → FetchSession
note_attempt id peer session = record session {
  attempts = Map.insert id peer session.attempts;
  tried = set_insert peer session.tried;
}

-- The session of a chunk that a request was sent for.
abbrev pub note_attempt_if_found :
    ChunkHash
    → OutboundRequestId
    → PeerId
    → Option FetchSession
    → Map FetchSession
    → Map FetchSession
note_attempt_if_found hash id peer none sessions = sessions
note_attempt_if_found hash id peer (some session) sessions =
    Map.insert hash (note_attempt id peer session) sessions

-- `fetch_chunk` of a chunk that is being fetched already.
abbrev pub join_session : Option ChunkReply → Bool → FetchSession → FetchSession
join_session reply pin session = record session {
  waiters = session.waiters ++ waiter_of reply;
  pin = session.pin || pin;
}

abbrev pub open_session : Option ChunkReply → Bool → FetchSession
open_session reply pin = record { waiters = waiter_of reply; attempts = []; tried = []; pin = pin }

-- `on_attempt_failed` once the session is found.
abbrev pub drop_attempt : OutboundRequestId → FetchSession → FetchSession
drop_attempt id session = record session { attempts = Map.remove id session.attempts }

module _ (crates : Crates) (net : Libp2p) where
  open crates use {Replica, digest}
  open net use {Swarm, connected_peers, send_request, send_response, sha256, hash_bytes, to_bytes}

  abbrev pub Ctx : Type 0
  Ctx = EventContext Swarm Replica

  abbrev pub answer : List ChunkReply → Option Bytes → Ctx → Ctx
  answer waiters content ctx = record ctx { answered = ctx.answered ++ answers waiters content }

  unfoldable pub next_targets : ChunkHash → List PeerId → List PeerId → ℕ → List PeerId
  next_targets hash connected tried limit =
      take limit
        (untried tried (top_peers sha256 hash_bytes to_bytes hash connected (length connected)))

  -- One round of the loop of `walk_down` over its targets.
  unfoldable pub send_pull : ChunkHash → PeerId → ChunkFetcher → Ctx → ChunkFetcher × Ctx
  send_pull hash peer f ctx =
      let (id, swarm) = send_request ctx.swarm peer (pull_chunk hash) in
      (
        record f {
          sessions = note_attempt_if_found hash id peer (Map.get hash f.sessions) f.sessions;
          requests = Map.insert id hash f.requests;
        },
        record ctx { swarm = swarm },
      )

  unfoldable pub send_all : ChunkHash → List PeerId → ChunkFetcher → Ctx → ChunkFetcher × Ctx
  send_all hash [] f ctx = (f, ctx)
  send_all hash (peer ∷ peers) f ctx =
      let (f', ctx') = send_pull hash peer f ctx in send_all hash peers f' ctx'

  -- `walk_down` where no target is left: the session ends.
  unfoldable pub give_up : ℕ → ChunkHash → FetchSession → ChunkFetcher → Ctx → ChunkFetcher × Ctx
  give_up now hash session f ctx = (
    record f {
      sessions = Map.remove hash f.sessions;
      blocked_until =
          if session.pin
          then Map.insert hash (now + chunk_fetch_backoff) f.blocked_until
          else f.blocked_until;
    },
    answer session.waiters none ctx,
  )

  abbrev pub walk_targets :
      ℕ → ChunkHash → FetchSession → List PeerId → ChunkFetcher → Ctx → ChunkFetcher × Ctx
  walk_targets now hash session [] f ctx = give_up now hash session f ctx
  walk_targets now hash session (peer ∷ peers) f ctx = send_all hash (peer ∷ peers) f ctx

  unfoldable pub walk_down : ℕ → ChunkHash → ChunkFetcher → Ctx → ChunkFetcher × Ctx
  walk_down now hash f ctx = elim (Map.get hash f.sessions) [
    | none ↦ (f, ctx)
    | some session ↦
        walk_targets now hash session
          (next_targets hash (connected_peers ctx.swarm) session.tried max_fetch_targets) f ctx
  ]

  unfoldable pub fetch_chunk :
      ℕ → ChunkHash → Option ChunkReply → Bool → ChunkFetcher → Ctx → ChunkFetcher × Ctx
  fetch_chunk now hash reply pin f ctx = elim (Map.get hash f.sessions) [
    | some session ↦
        (record f { sessions = Map.insert hash (join_session reply pin session) f.sessions }, ctx)
    | none ↦
        if not pin && is_blocked now f hash
        then (f, answer (waiter_of reply) none ctx)
        else walk_down now hash
            (record f { sessions = Map.insert hash (open_session reply pin) f.sessions }) ctx
  ]

  abbrev pub walk_if_empty : ℕ → ChunkHash → Map PeerId → ChunkFetcher → Ctx → ChunkFetcher × Ctx
  walk_if_empty now hash [] f ctx = walk_down now hash f ctx
  walk_if_empty now hash (attempt ∷ attempts) f ctx = (f, ctx)

  unfoldable pub on_attempt_failed :
      ℕ → ChunkHash → OutboundRequestId → ChunkFetcher → Ctx → ChunkFetcher × Ctx
  on_attempt_failed now hash id f ctx = elim (Map.get hash f.sessions) [
    | none ↦ (f, ctx)
    | some session ↦
        walk_if_empty now hash (Map.remove id session.attempts)
          (record f { sessions = Map.insert hash (drop_attempt id session) f.sessions }) ctx
  ]

  unfoldable pub handle_failure : ℕ → OutboundRequestId → ChunkFetcher → Ctx → ChunkFetcher × Ctx
  handle_failure now id f ctx = elim (Map.get id f.requests) [
    | none ↦ (f, ctx)
    | some hash ↦
        on_attempt_failed now hash id (record f { requests = Map.remove id f.requests }) ctx
  ]
