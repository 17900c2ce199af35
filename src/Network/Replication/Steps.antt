-- ===== src/Network/Replication/Steps.antt =====
-- src/network/handlers/replication.rs: a `ReplicationHandler` over the events and ticks it has handled.
use edfs.Crates.{Crates, PeerId}
use edfs.Domain.{ChunkHash}
use edfs.FileSystem.Chunks.{promote_to_pinned}
use edfs.FileSystem.Reachable.{reachable_chunk_hashes}
use edfs.Network.Channel.{CommandChannel}
use edfs.Network.Fetcher.{Ctx}
use edfs.Network.Fetcher.Handling.{Holds, Holds-some}
use edfs.Network.Protocol.{check_chunks}
use edfs.Network.Replication.{
  current_members, retain_confirmed, candidates_in, questions, completed_in, probe_peer, probe_all,
}
use edfs.Network.Replication.Handling.{
  Handler, Round, rebalance_one, rebalance_loop, rebalance, block, probe_candidates,
  probe_eviction_candidates, evict_confirmed,
}
use edfs.Network.Replication.Remote.{
  get-retain_confirmed, retain_confirmed-Distinct, candidates_in_remote, questions_remote,
  probe_all_remote, Elsewhere,
}
use edfs.Network.Replication.Rounds.{
  RoundStep, skipped, promoted, full, issued, rebalance_one-RoundStep,
}
use edfs.Network.Replication.Eviction.{IsRemote, evict_all_remote}
use edfs.Network.Swarm.{Libp2p, SwarmLaws}
use edfs.Prelude.Map
use edfs.Prelude.Map.{Map, get-remove, get-nil}
use edfs.Prelude.{
  ℕ, ◌≡◌, refl, ◌==◌, Bool, true, false, Option, none, List, [], ◌∷◌, All, arith, length,
  Bool-cases, Option-cases, inl, inr, subst, ◌∙◌, sym,
}
use edfs.Storage
use edfs.Config.{max_hashes_per_probe}
use edfs.Prelude.{chunks}

module _ (crates : Crates) (net : Libp2p) (chan : CommandChannel) (laws : SwarmLaws net)
    (local : PeerId) where
  -- The handler has confirmed holders other than its own peer, which is `local`.
  abbrev pub Kept : Handler crates net chan × Ctx crates net → Type 0
  Kept state = IsRemote local state.0 × (net.local_peer_id state.1.swarm ≡ local)

  local-probe_peer :
      (peer : PeerId) (batches : List (List ChunkHash)) (swarm : net.Swarm) (pending : Map PeerId)
      → net.local_peer_id (probe_peer crates net peer batches swarm pending).0
        ≡ net.local_peer_id swarm
  unfolding probe_peer
  local-probe_peer peer [] swarm pending = refl
  local-probe_peer peer (batch ∷ batches) swarm pending =
      let (id, swarm') = net.send_request swarm peer (check_chunks batch) in
      local-probe_peer peer batches swarm' (Map.insert id peer pending)
      ∙ laws.local-send_request swarm peer (check_chunks batch)

  local-probe_all :
      (by_holder : Map (List ChunkHash)) (swarm : net.Swarm) (pending : Map PeerId)
      → net.local_peer_id (probe_all crates net by_holder swarm pending).0 ≡ net.local_peer_id swarm
  unfolding probe_all
  local-probe_all [] swarm pending = refl
  local-probe_all ((peer, hashes) ∷ by_holder) swarm pending =
      let batches : List (List ChunkHash) = chunks max_hashes_per_probe hashes in
      let (swarm', pending') = probe_peer crates net peer batches swarm pending in
      local-probe_all by_holder swarm' pending' ∙ local-probe_peer peer batches swarm pending

  block_kept :
      (now : ℕ) (hash : ChunkHash) (done : Bool) (h : Handler crates net chan)
      → IsRemote local h
      → IsRemote local (block crates net chan now hash done h)
  block_kept now hash true h k = k
  block_kept now hash false h k = record {
    confirmed-Distinct = k.confirmed-Distinct;
    confirmed_remote = k.confirmed_remote;
    pending_remote = k.pending_remote;
  }

  round_kept :
      (me : PeerId) (members : List PeerId) (now : ℕ) (hash : ChunkHash) (r : Round crates net chan)
      (next : Option (Round crates net chan))
      → IsRemote local r.handler
      → RoundStep crates net chan me members now hash r next
      → Holds (λ r'. IsRemote local r'.handler) next
  round_kept me members now hash r _ k skipped = k
  round_kept me members now hash r _ k promoted =
      block_kept now hash (promote_to_pinned crates r.filesystem hash).0 r.handler k
  round_kept me members now hash r _ k full = tt
  round_kept me members now hash r _ k (issued d a l) = record {
    confirmed-Distinct = k.confirmed-Distinct;
    confirmed_remote = k.confirmed_remote;
    pending_remote = k.pending_remote;
  }

  rebalance_loop_kept :
      (me : PeerId) (members : List PeerId) (now : ℕ) (live : List ChunkHash)
      (r : Round crates net chan)
      → IsRemote local r.handler
      → IsRemote local (rebalance_loop crates net chan me members now live r).handler
  unfolding rebalance_loop
  rebalance_loop_kept me members now [] r k = k
  rebalance_loop_kept me members now (hash ∷ live) r k =
      let next : Option (Round crates net chan) =
        rebalance_one crates net chan me members now hash r in
      let kept : Holds (λ r'. IsRemote local r'.handler) next =
        round_kept me members now hash r next k
          (rebalance_one-RoundStep crates net chan me members now hash r) in
      elim (Option-cases next) [
        | inl n ↦ rw (rebalance_loop, n) k
        | inr (r', e) ↦
            rw (rebalance_loop, e)
              (rebalance_loop_kept me members now live r'
                (Holds-some (λ r'. IsRemote local r'.handler) next r' kept e))
      ]

  pub rebalance-Kept :
      (fuel now : ℕ) (h : Handler crates net chan) (ctx : Ctx crates net)
      → Kept (h, ctx)
      → Holds Kept (rebalance crates net chan fuel now h ctx)
  unfolding rebalance
  rebalance-Kept fuel now h ctx k =
      elim (Bool-cases (length (current_members crates net ctx.swarm) == 1)) [
        | inl alone ↦ rw (rebalance, alone) k
        | inr b ↦ elim (Option-cases (reachable_chunk_hashes crates fuel ctx.filesystem)) [
          | inl n ↦ rw (rebalance, b, n) tt
          | inr (live, e) ↦
              let start : Round crates net chan = record {
                issued = 0;
                handler = h;
                filesystem = ctx.filesystem;
              } in
              rw (rebalance, b, e)
                (
                  rebalance_loop_kept (net.local_peer_id ctx.swarm)
                      (current_members crates net ctx.swarm) now live start k.0,
                  k.1,
                )
        ]
      ]

  probe_candidates-Kept :
      (members : List PeerId) (candidates : List ChunkHash) (h : Handler crates net chan)
      (ctx : Ctx crates net)
      → All (Elsewhere crates net local members) candidates
      → Kept (h, ctx)
      → Kept (probe_candidates crates net chan members candidates h ctx)
  probe_candidates-Kept members [] h ctx d k = (
    record {
      confirmed-Distinct = tt;
      confirmed_remote = λ hash. ground (arith, get-nil {V = List PeerId} hash);
      pending_remote = k.0.pending_remote;
    },
    k.1,
  )
  probe_candidates-Kept members (hash ∷ hashes) h ctx d k =
      let confirmed : Map (List PeerId) = retain_confirmed (hash ∷ hashes) h.confirmed_holders in
      let by_holder : Map (List ChunkHash) =
        questions crates net (hash ∷ hashes) members confirmed [] in
      let unasked : Map.get local by_holder ≡ none =
        questions_remote crates net local (hash ∷ hashes) members confirmed [] d
          (get-nil {V = List ChunkHash} local) in
      (
        record {
          confirmed-Distinct =
              retain_confirmed-Distinct (hash ∷ hashes) h.confirmed_holders k.0.confirmed-Distinct;
          confirmed_remote = λ c. ground (
            arith,
            get-retain_confirmed (hash ∷ hashes) h.confirmed_holders c,
            k.0.confirmed_remote c,
          );
          pending_remote = λ id.
              probe_all_remote crates net local by_holder ctx.swarm h.pending_probes id unasked
                k.0.pending_remote;
        },
        local-probe_all by_holder ctx.swarm h.pending_probes ∙ k.1,
      )

  pub probe_eviction_candidates-Kept :
      (fuel : ℕ) (h : Handler crates net chan) (ctx : Ctx crates net)
      → Kept (h, ctx)
      → Holds Kept (probe_eviction_candidates crates net chan fuel h ctx)
  unfolding probe_eviction_candidates
  probe_eviction_candidates-Kept fuel h ctx k =
      elim (Option-cases (reachable_chunk_hashes crates fuel ctx.filesystem)) [
        | inl n ↦ rw (probe_eviction_candidates, n) tt
        | inr (live, e) ↦
            let members : List PeerId = current_members crates net ctx.swarm in
            let pinned : List ChunkHash = Storage.pinned_hashes ctx.filesystem.storage in
            let me : PeerId = net.local_peer_id ctx.swarm in
            let elsewhere : All (Elsewhere crates net local members)
                (candidates_in crates net live members me pinned) =
              subst
                (λ p.
                  All (Elsewhere crates net local members)
                    (candidates_in crates net live members p pinned))
                (sym k.1) (candidates_in_remote crates net local live members pinned) in
            rw (probe_eviction_candidates, e)
              (probe_candidates-Kept members (candidates_in crates net live members me pinned) h ctx
                elsewhere k)
      ]

  pub evict_confirmed-Kept :
      (fuel : ℕ) (h : Handler crates net chan) (ctx : Ctx crates net)
      → Kept (h, ctx)
      → Holds Kept (evict_confirmed crates net chan fuel h ctx)
  unfolding evict_confirmed
  evict_confirmed-Kept fuel h ctx k =
      elim (Option-cases (reachable_chunk_hashes crates fuel ctx.filesystem)) [
        | inl n ↦ rw (evict_confirmed, n) tt
        | inr (live, e) ↦
            let completed : List ChunkHash =
              completed_in crates net live (current_members crates net ctx.swarm)
                h.confirmed_holders in
            let (distinct, remote) =
              evict_all_remote crates net chan local completed h.confirmed_holders ctx.filesystem
                k.0.confirmed-Distinct k.0.confirmed_remote in
            rw (evict_confirmed, e)
              (
                record {
                  confirmed-Distinct = distinct;
                  confirmed_remote = remote;
                  pending_remote = k.0.pending_remote;
                },
                k.1,
              )
      ]
