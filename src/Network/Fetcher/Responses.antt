-- ===== src/Network/Fetcher/Responses.antt =====
-- src/network/handlers/chunk.rs: `handle_response` of `ChunkFetcher`, and `ChunkHandler`.
use edfs.Config.{chunk_fetch_backoff}
use edfs.Crates.{Crates}
use edfs.Domain.{Bytes, ChunkHash}
use edfs.FileSystem.{FileSystem, FileSystemError}
use edfs.FileSystem.Chunks.{pin_chunk, cache_chunk, chunk}
use edfs.Network.Protocol.{
  OutboundRequestId, Response, pull_chunk, chunk_content, failure, chunk_not_found, Event,
  fetch_command, command, request, response, outbound_failure, swarm_event,
}
use edfs.Network.Swarm.{Libp2p}
use edfs.Network.Fetcher.{
  FetchSession, ChunkFetcher, drop_requests, Ctx, answer, on_attempt_failed, handle_failure,
  fetch_chunk,
}
use edfs.Prelude.Map
use edfs.Prelude.Map.{Map, is_some}
use edfs.Prelude.{
  ℕ, ◌+◌, ◌==◌, Bool, true, false, not, Option, none, some, Result, ok, err, panic, if◌then◌else◌,
}

-- `Request::PullChunk`, with its reply.
abbrev pub chunk_response : Option Bytes → Response
chunk_response (some content) = chunk_content content
chunk_response none = failure chunk_not_found

module _ (crates : Crates) (net : Libp2p) where
  open crates use {Replica, digest}
  open net use {send_response}

  -- What a fetched chunk is stored as: whether the pin was refused, and the file system. `none`
  -- stands for a panic of `try_pin`.
  abbrev pub pin_or_cache :
      Bytes
      → FileSystem Replica
      → Result FileSystemError (Unit {0}) × FileSystem Replica
      → Option (Bool × FileSystem Replica)
  pin_or_cache content fs (ok done, fs') = some (false, fs')
  pin_or_cache content fs (err e, fs') = some (true, cache_chunk crates fs' content)
  pin_or_cache content fs (panic, fs') = none

  abbrev pub store_fetched : Bool → Bytes → FileSystem Replica → Option (Bool × FileSystem Replica)
  store_fetched true content fs = pin_or_cache content fs (pin_chunk crates fs content)
  store_fetched false content fs = some (false, cache_chunk crates fs content)

  -- `handle_response` with data of the right hash, for a session that is there.
  unfoldable pub complete :
      ℕ
      → ChunkHash
      → FetchSession
      → Bytes
      → ChunkFetcher
      → Ctx crates net
      → Option (ChunkFetcher × Ctx crates net)
  complete now hash session content f ctx =
      elim (store_fetched session.pin content ctx.filesystem) [
        | none ↦ none
        | some (refused, fs) ↦ some (
          record f {
            sessions = Map.remove hash f.sessions;
            requests = drop_requests session.attempts f.requests;
            blocked_until =
                if refused
                then Map.insert hash (now + chunk_fetch_backoff) f.blocked_until
                else f.blocked_until;
          },
          answer crates net session.waiters (some content) (record ctx { filesystem = fs }),
        )
      ]

  abbrev pub complete_if_found :
      ℕ
      → ChunkHash
      → Option FetchSession
      → Bytes
      → ChunkFetcher
      → Ctx crates net
      → Option (ChunkFetcher × Ctx crates net)
  complete_if_found now hash none content f ctx = some (f, ctx)
  complete_if_found now hash (some session) content f ctx = complete now hash session content f ctx

  unfoldable pub handle_response :
      ℕ
      → OutboundRequestId
      → Bytes
      → ChunkFetcher
      → Ctx crates net
      → Option (ChunkFetcher × Ctx crates net)
  handle_response now id content f ctx = elim (Map.get id f.requests) [
    | none ↦ some (f, ctx)
    | some hash ↦
        let f' : ChunkFetcher = record f { requests = Map.remove id f.requests } in
        if not (digest content == hash)
        then some (on_attempt_failed crates net now hash id f' ctx)
        else complete_if_found now hash (Map.get hash f'.sessions) content f' ctx
  ]

  unfoldable pub serve_chunk : ChunkHash → ℕ → Ctx crates net → Ctx crates net
  serve_chunk hash channel ctx =
      let (held, fs) = chunk crates ctx.filesystem hash in
      record ctx { filesystem = fs; swarm = send_response ctx.swarm channel (chunk_response held) }

  -- `ChunkHandler::handle`.
  abbrev pub handle :
      ℕ → Event → ChunkFetcher → Ctx crates net → Option (ChunkFetcher × Ctx crates net)
  handle now (command (fetch_command hash reply pin)) f ctx =
      some (fetch_chunk crates net now hash reply pin f ctx)
  handle now (request (pull_chunk hash) (some channel)) f ctx =
      some (f, serve_chunk hash channel ctx)
  handle now (response id (chunk_content content)) f ctx = handle_response now id content f ctx
  handle now (response id (failure e)) f ctx = some (handle_failure crates net now id f ctx)
  handle now (swarm_event (outbound_failure id)) f ctx =
      some (handle_failure crates net now id f ctx)
  handle now _ f ctx = some (f, ctx)
