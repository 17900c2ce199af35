-- ===== src/Network/Fetcher/Storing.antt =====
-- src/network/handlers/chunk.rs: `ChunkHandler::handle` on a valid storage.
use edfs.Crates.{Crates}
use edfs.Domain.{Bytes, ChunkHash, new_chunk}
use edfs.FileSystem.{FileSystem}
use edfs.FileSystem.Chunks.{pinned_chunk}
use edfs.Network.Fetcher.{
  FetchSession, ChunkFetcher, Ctx, fetch_chunk, walk_down, is_blocked, open_session,
  on_attempt_failed, handle_failure,
}
use edfs.Network.Fetcher.Responses.{
  pin_or_cache, store_fetched, complete, complete_if_found, handle_response, serve_chunk, handle,
}
use edfs.Network.Fetcher.Verified.{NoData, walk_down-NoData, on_attempt_failed-NoData}
use edfs.Network.Protocol.{
  ChunkReply, OutboundRequestId, pull_chunk, check_chunks, pull_missing_operations, chunk_content,
  held_chunks, missing_operations, failure, Event, fetch_command, broadcast_operations, command,
  request, response, outbound_failure, tick_event, connection_established, discovered,
  other_swarm_event, gossip, swarm_event, request_message, response_message, gossip_message,
}
use edfs.Network.Swarm.{Libp2p}
use edfs.Prelude.Map
use edfs.Prelude.Map.{Map}
use edfs.Prelude.{
  ℕ, ◌≡◌, refl, ◌==◌, Bool, true, false, not, ◌&&◌, Option, none, some, [], ◌∷◌, Bool-cases,
  Option-cases, inl, inr, subst, sym, Result, ok, err, panic,
}
use edfs.Storage
use edfs.Storage.{ChunkStorage, StorageError}
use edfs.Storage.Accounts.{IsValid}
use edfs.Storage.Access.{get-IsValid}
use edfs.Storage.Caching.{cache-IsValid}
use edfs.Storage.History.{try_pin-ok, try_pin-ne-panic}

module _ (crates : Crates) (net : Libp2p) where
  open crates use {Replica}

  -- A result that is there, with a valid storage.
  abbrev pub IsStored : Option (Bool × FileSystem Replica) → Type 0
  IsStored none = ⊥
  IsStored (some stored) = IsValid stored.1.storage

  pinned-IsStored :
      (content : Bytes) (fs : FileSystem Replica) (r : Result StorageError ChunkStorage)
      → IsValid fs.storage
      → Storage.try_pin fs.storage (new_chunk crates.digest content ∷ []) ≡ r
      → IsStored (pin_or_cache crates net content fs (pinned_chunk crates fs r))
  pinned-IsStored content fs (ok s) v e =
      (try_pin-ok fs.storage (new_chunk crates.digest content ∷ []) v e).0
  pinned-IsStored content fs (err e) v same =
      cache-IsValid fs.storage (new_chunk crates.digest content) v
  pinned-IsStored content fs panic v e =
      try_pin-ne-panic fs.storage (new_chunk crates.digest content ∷ []) v e

  store_fetched-IsStored :
      (pin : Bool) (content : Bytes) (fs : FileSystem Replica)
      → IsValid fs.storage
      → IsStored (store_fetched crates net pin content fs)
  store_fetched-IsStored true content fs v =
      pinned-IsStored content fs (Storage.try_pin fs.storage (new_chunk crates.digest content ∷ []))
        v refl
  store_fetched-IsStored false content fs v =
      cache-IsValid fs.storage (new_chunk crates.digest content) v

  -- The same of a result of the handler.
  abbrev pub IsDone : Option (ChunkFetcher × Ctx crates net) → Type 0
  IsDone none = ⊥
  IsDone (some after) = IsValid after.1.filesystem.storage

  complete-IsDone :
      (now : ℕ) (hash : ChunkHash) (session : FetchSession) (content : Bytes) (f : ChunkFetcher)
      (ctx : Ctx crates net)
      → IsValid ctx.filesystem.storage
      → IsDone (complete crates net now hash session content f ctx)
  unfolding complete
  complete-IsDone now hash session content f ctx v =
      let stored : Option (Bool × FileSystem Replica) =
        store_fetched crates net session.pin content ctx.filesystem in
      let s : IsStored stored = store_fetched-IsStored session.pin content ctx.filesystem v in
      elim (Option-cases stored) [
        | inl n ↦ absurd (subst IsStored n s)
        | inr (after, e) ↦ rw (complete, e) (subst IsStored e s)
      ]

  complete_if_found-IsDone :
      (now : ℕ) (hash : ChunkHash) (session : Option FetchSession) (content : Bytes)
      (f : ChunkFetcher) (ctx : Ctx crates net)
      → IsValid ctx.filesystem.storage
      → IsDone (complete_if_found crates net now hash session content f ctx)
  complete_if_found-IsDone now hash none content f ctx v = v
  complete_if_found-IsDone now hash (some session) content f ctx v =
      complete-IsDone now hash session content f ctx v

  unchanged-IsDone :
      (ctx : Ctx crates net) (after : ChunkFetcher × Ctx crates net)
      → NoData crates net ctx after.1
      → IsValid ctx.filesystem.storage
      → IsValid after.1.filesystem.storage
  unchanged-IsDone ctx after n v =
      subst (λ (fs : FileSystem Replica). IsValid fs.storage) (sym n.same_filesystem) v

  handle_response-IsDone :
      (now : ℕ) (id : OutboundRequestId) (content : Bytes) (f : ChunkFetcher) (ctx : Ctx crates net)
      → IsValid ctx.filesystem.storage
      → IsDone (handle_response crates net now id content f ctx)
  unfolding handle_response
  handle_response-IsDone now id content f ctx v = elim (Option-cases (Map.get id f.requests)) [
    | inl n ↦ rw (handle_response, n) v
    | inr (hash, r) ↦
        let f' : ChunkFetcher = record f { requests = Map.remove id f.requests } in
        elim (Bool-cases (crates.digest content == hash)) [
          | inr b ↦
              rw (handle_response, r, b)
                (unchanged-IsDone ctx (on_attempt_failed crates net now hash id f' ctx)
                  (on_attempt_failed-NoData crates net now hash id f' ctx) v)
          | inl b ↦
              rw (handle_response, r, b)
                (complete_if_found-IsDone now hash (Map.get hash f.sessions) content f' ctx v)
        ]
  ]

  handle_failure-IsDone :
      (now : ℕ) (id : OutboundRequestId) (f : ChunkFetcher) (ctx : Ctx crates net)
      → IsValid ctx.filesystem.storage
      → IsValid (handle_failure crates net now id f ctx).1.filesystem.storage
  unfolding handle_failure
  handle_failure-IsDone now id f ctx v = elim (Option-cases (Map.get id f.requests)) [
    | inl n ↦ rw (handle_failure, n) v
    | inr (hash, r) ↦
        let f' : ChunkFetcher = record f { requests = Map.remove id f.requests } in
        rw (handle_failure, r)
          (unchanged-IsDone ctx (on_attempt_failed crates net now hash id f' ctx)
            (on_attempt_failed-NoData crates net now hash id f' ctx) v)
  ]

  fetch_chunk-IsDone :
      (now : ℕ) (hash : ChunkHash) (reply : Option ChunkReply) (pin : Bool) (f : ChunkFetcher)
      (ctx : Ctx crates net)
      → IsValid ctx.filesystem.storage
      → IsValid (fetch_chunk crates net now hash reply pin f ctx).1.filesystem.storage
  unfolding fetch_chunk
  fetch_chunk-IsDone now hash reply pin f ctx v = elim (Option-cases (Map.get hash f.sessions)) [
    | inr (session, e) ↦ rw (fetch_chunk, e) v
    | inl n ↦ elim (Bool-cases (not pin && is_blocked now f hash)) [
      | inl b ↦ rw (fetch_chunk, n, b) v
      | inr b ↦
          let f' : ChunkFetcher = record f {
            sessions = Map.insert hash (open_session reply pin) f.sessions;
          } in
          rw (fetch_chunk, n, b)
            (unchanged-IsDone ctx (walk_down crates net now hash f' ctx)
              (walk_down-NoData crates net now hash f' ctx) v)
    ]
  ]

  serve_chunk-IsDone :
      (hash : ChunkHash) (channel : ℕ) (ctx : Ctx crates net)
      → IsValid ctx.filesystem.storage
      → IsValid (serve_chunk crates net hash channel ctx).filesystem.storage
  unfolding serve_chunk
  serve_chunk-IsDone hash channel ctx v = get-IsValid ctx.filesystem.storage hash v

  handle-IsDone :
      (now : ℕ) (e : Event) (f : ChunkFetcher) (ctx : Ctx crates net)
      → IsValid ctx.filesystem.storage
      → IsDone (handle crates net now e f ctx)
  handle-IsDone now (command (fetch_command hash reply pin)) f ctx v =
      fetch_chunk-IsDone now hash reply pin f ctx v
  handle-IsDone now (request (pull_chunk hash) (some channel)) f ctx v =
      serve_chunk-IsDone hash channel ctx v
  handle-IsDone now (response id (chunk_content content)) f ctx v =
      handle_response-IsDone now id content f ctx v
  handle-IsDone now (response id (failure e)) f ctx v = handle_failure-IsDone now id f ctx v
  handle-IsDone now (swarm_event (outbound_failure id)) f ctx v =
      handle_failure-IsDone now id f ctx v
  handle-IsDone now (command (broadcast_operations operations)) f ctx v = v
  handle-IsDone now (request (pull_chunk hash) none) f ctx v = v
  handle-IsDone now (request (check_chunks hashes) channel) f ctx v = v
  handle-IsDone now (request (pull_missing_operations ids) channel) f ctx v = v
  handle-IsDone now (response id (held_chunks hashes)) f ctx v = v
  handle-IsDone now (response id (missing_operations operations)) f ctx v = v
  handle-IsDone now tick_event f ctx v = v
  handle-IsDone now (swarm_event (connection_established peer established)) f ctx v = v
  handle-IsDone now (swarm_event (discovered peers)) f ctx v = v
  handle-IsDone now (swarm_event other_swarm_event) f ctx v = v
  handle-IsDone now (swarm_event (request_message r channel)) f ctx v = v
  handle-IsDone now (swarm_event (response_message id r)) f ctx v = v
  handle-IsDone now (swarm_event (gossip_message message)) f ctx v = v
  handle-IsDone now (gossip message) f ctx v = v

  -- With a valid storage the chunk handler handles every event, whatever data a peer sends, without a
  -- panic, and leaves a valid storage.
  pub handle-IsValid :
      (now : ℕ) (e : Event) (f : ChunkFetcher) (ctx : Ctx crates net)
      → IsValid ctx.filesystem.storage
      → (after : ChunkFetcher × Ctx crates net) × (handle crates net now e f ctx ≡ some after)
        × IsValid after.1.filesystem.storage
  handle-IsValid now e f ctx v =
      let result : Option (ChunkFetcher × Ctx crates net) = handle crates net now e f ctx in
      let d : IsDone result = handle-IsDone now e f ctx v in
      elim (Option-cases result) [
        | inl n ↦ absurd (subst IsDone n d)
        | inr (after, r) ↦ (after, r, subst IsDone r d)
      ]
