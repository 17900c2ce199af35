-- ===== src/Network/Replication/Remote.antt =====
-- src/network/handlers/replication.rs: a `ReplicationHandler` never counts its own peer among the
-- confirmed holders, and evicts only what others are to hold and have confirmed.
use edfs.Crates.{Crates, PeerId}
use edfs.Domain.{ChunkHash}
use edfs.Network.Protocol.{OutboundRequestId, check_chunks}
use edfs.Network.Replication.{
  or_default, is_confirmed, all_in, retain_confirmed, confirm_all, ask_holders, designated_holders,
  candidates_in, questions, completed_in, probe_peer, probe_all,
}
use edfs.Network.Swarm.{Libp2p}
use edfs.Prelude.Map
use edfs.Prelude.Map.{Map, is_some, get-insert, get-remove, get-nil, insert-Distinct}
use edfs.Prelude.{
  ◌≡◌, refl, ◌==◌, Bool, true, false, Option, none, some, List, [], ◌∷◌, ◌++◌, mem, All, set_insert,
  if◌then◌else◌, arith, chunks, Bool-cases, inl, inr,
}
use edfs.Config.{max_hashes_per_probe}

-- A confirmation by `peer`, other than `local`, adds no confirmation by `local`.
pub confirm_all_remote :
    (local peer : PeerId) (hashes : List ChunkHash) (m : Map (List PeerId)) (k : ChunkHash)
    → (peer == local) ≡ false
    → is_confirmed local (Map.get k m) ≡ false
    → is_confirmed local (Map.get k (confirm_all peer hashes m)) ≡ false
unfolding confirm_all
confirm_all_remote local peer [] m k d h = h
confirm_all_remote local peer (hash ∷ hashes) m k d h =
    let grown : List PeerId = set_insert peer (or_default (Map.get hash m)) in
    confirm_all_remote local peer hashes (Map.insert hash grown m) k d
      (ground (arith, get-insert hash k grown m))

pub confirm_all-Distinct :
    (peer : PeerId) (hashes : List ChunkHash) (m : Map (List PeerId))
    → Map.Distinct m
    → Map.Distinct (confirm_all peer hashes m)
unfolding confirm_all
confirm_all-Distinct peer [] m d = d
confirm_all-Distinct peer (hash ∷ hashes) m d =
    let grown : List PeerId = set_insert peer (or_default (Map.get hash m)) in
    confirm_all-Distinct peer hashes (Map.insert hash grown m) (insert-Distinct hash grown m d)

pub get-retain_confirmed :
    (candidates : List ChunkHash) (m : Map (List PeerId)) (k : ChunkHash)
    → Map.get k (retain_confirmed candidates m) ≡ (if mem k candidates then Map.get k m else none)
unfolding retain_confirmed Map.get
get-retain_confirmed candidates [] k = ground arith
get-retain_confirmed candidates ((hash, peers) ∷ m) k =
    ground (arith, get-retain_confirmed candidates m k)

pub retain_confirmed-Distinct :
    (candidates : List ChunkHash) (m : Map (List PeerId))
    → Map.Distinct m
    → Map.Distinct (retain_confirmed candidates m)
unfolding retain_confirmed
retain_confirmed-Distinct candidates [] d = tt
retain_confirmed-Distinct candidates ((hash, peers) ∷ m) d =
    ground
      (arith, retain_confirmed-Distinct candidates m d.1, get-retain_confirmed candidates m hash)

-- Nobody asks `local` where it is not among the holders.
ask_holders_remote :
    (local : PeerId) (hash : ChunkHash) (peers : List PeerId) (confirmed : Map (List PeerId))
    (by_holder : Map (List ChunkHash))
    → mem local peers ≡ false
    → Map.get local by_holder ≡ none
    → Map.get local (ask_holders hash peers confirmed by_holder) ≡ none
unfolding ask_holders
ask_holders_remote local hash [] confirmed by_holder d h = h
ask_holders_remote local hash (peer ∷ peers) confirmed by_holder d h =
    let asked : List ChunkHash = or_default (Map.get peer by_holder) ++ hash ∷ [] in
    ask_holders_remote local hash peers confirmed _ (ground arith)
      (ground (arith, get-insert peer local asked by_holder))

-- Whether a request that is waited for was sent to `local`.
abbrev pub is_to : PeerId → Option PeerId → Bool
is_to local none = false
is_to local (some peer) = peer == local

module _ (crates : Crates) (net : Libp2p) (local : PeerId) where
  abbrev pub Elsewhere : List PeerId → ChunkHash → Type 0
  Elsewhere members hash = mem local (designated_holders crates net hash members) ≡ false

  pub candidates_in_remote :
      (reachable : List ChunkHash) (members : List PeerId) (pinned : List ChunkHash)
      → All (Elsewhere members) (candidates_in crates net reachable members local pinned)
  unfolding candidates_in
  candidates_in_remote reachable members [] = tt
  candidates_in_remote reachable members (hash ∷ pinned) =
      ground (arith, candidates_in_remote reachable members pinned)

  pub questions_remote :
      (candidates : List ChunkHash) (members : List PeerId) (confirmed : Map (List PeerId))
      (by_holder : Map (List ChunkHash))
      → All (Elsewhere members) candidates
      → Map.get local by_holder ≡ none
      → Map.get local (questions crates net candidates members confirmed by_holder) ≡ none
  unfolding questions
  questions_remote [] members confirmed by_holder d h = h
  questions_remote (hash ∷ candidates) members confirmed by_holder d h =
      questions_remote candidates members confirmed _ d.1 (
        ask_holders_remote local hash (designated_holders crates net hash members) confirmed
          by_holder d.0 h)

  probe_peer_remote :
      (peer : PeerId) (batches : List (List ChunkHash)) (swarm : net.Swarm) (pending : Map PeerId)
      (id : OutboundRequestId)
      → (peer == local) ≡ false
      → ((j : OutboundRequestId) → is_to local (Map.get j pending) ≡ false)
      → is_to local (Map.get id (probe_peer crates net peer batches swarm pending).1) ≡ false
  unfolding probe_peer
  probe_peer_remote peer [] swarm pending id d h = h id
  probe_peer_remote peer (batch ∷ batches) swarm pending id d h =
      let (new_id, swarm') = net.send_request swarm peer (check_chunks batch) in
      probe_peer_remote peer batches swarm' (Map.insert new_id peer pending) id d
        (λ j. ground (arith, h j, get-insert new_id j peer pending))

  pub probe_all_remote :
      (by_holder : Map (List ChunkHash)) (swarm : net.Swarm) (pending : Map PeerId)
      (id : OutboundRequestId)
      → Map.get local by_holder ≡ none
      → ((j : OutboundRequestId) → is_to local (Map.get j pending) ≡ false)
      → is_to local (Map.get id (probe_all crates net by_holder swarm pending).1) ≡ false
  unfolding probe_all Map.get
  probe_all_remote [] swarm pending id d h = h id
  probe_all_remote ((peer, hashes) ∷ by_holder) swarm pending id d h =
      let batches : List (List ChunkHash) = chunks max_hashes_per_probe hashes in
      let other : (peer == local) ≡ false = ground arith in
      let (swarm', pending') = probe_peer crates net peer batches swarm pending in
      probe_all_remote by_holder swarm' pending' id (ground arith)
        (λ j. probe_peer_remote peer batches swarm pending j other h)

  completed_in_absent :
      (live : List ChunkHash) (members : List PeerId) (m : Map (List PeerId)) (hash : ChunkHash)
      → is_some (Map.get hash m) ≡ false
      → mem hash (completed_in crates net live members m) ≡ false
  unfolding completed_in Map.get
  completed_in_absent live members [] hash h = refl
  completed_in_absent live members ((k, confirmed) ∷ m) hash h =
      ground (arith, completed_in_absent live members m hash)

  -- What is to be evicted is live, and all its holders have confirmed it.
  pub mem-completed_in :
      (live : List ChunkHash) (members : List PeerId) (m : Map (List PeerId)) (hash : ChunkHash)
      → Map.Distinct m
      → mem hash (completed_in crates net live members m) ≡ true
      → (mem hash live ≡ true)
        × (all_in (designated_holders crates net hash members) (or_default (Map.get hash m)) ≡ true)
  unfolding completed_in Map.get
  mem-completed_in live members [] hash d h = absurd (ground arith)
  mem-completed_in live members ((k, confirmed) ∷ m) hash d h = elim (Bool-cases (k == hash)) [
    | inl e ↦
        let same : k ≡ hash = ground arith in
        ground (arith, same, d.0, completed_in_absent live members m hash)
    | inr e ↦ ground (arith, mem-completed_in live members m hash d.1)
  ]
