-- ===== src/Network/Replication/Eviction.antt =====
-- src/network/handlers/replication.rs: what every step of a `ReplicationHandler` keeps, and what an
-- eviction rests on.
use edfs.Crates.{Crates, PeerId}
use edfs.Domain.{ChunkHash}
use edfs.FileSystem.{FileSystem}
use edfs.FileSystem.Chunks.{evict_chunk}
use edfs.FileSystem.Reachable.{reachable_chunk_hashes}
use edfs.Hrw.Ranking.{top_peers-Ranked}
use edfs.Network.Channel.{CommandChannel}
use edfs.Network.Fetcher.{Ctx}
use edfs.Network.Protocol.{OutboundRequestId}
use edfs.Network.Replication.{
  ReplicationHandler, or_default, is_confirmed, all_in, current_members, designated_holders,
  completed_in,
}
use edfs.Network.Replication.Handling.{Handler, evict_all, evict_live, evict_confirmed}
use edfs.Network.Replication.Remote.{is_to, mem-completed_in}
use edfs.Network.Swarm.{Libp2p}
use edfs.Prelude.Map
use edfs.Prelude.Map.{Map, get-remove, remove-Distinct}
use edfs.Prelude.{
  ℕ, suc, zero, ◌≡◌, refl, ◌≤◌, ◌⊎◌, true, false, some, List, [], ◌∷◌, mem, mem-append,
  if◌then◌else◌, arith, map, take, length, count, mem-eq-false, Bool-cases, Option-cases, inl, inr,
  subst, ◌∙◌, ap,
}
use edfs.Storage
use edfs.Storage.Access.{evict_lem}

-- Who has confirmed a chunk and whom a probe was sent to: never the peer itself.
pub record IsRemote {Sender : Type 0} (local : PeerId) (h : ReplicationHandler Sender)
    : Type 0 where
  pub confirmed-Distinct : Map.Distinct h.confirmed_holders
  pub confirmed_remote :
      (hash : ChunkHash) → is_confirmed local (Map.get hash h.confirmed_holders) ≡ false
  pub pending_remote : (id : OutboundRequestId) → is_to local (Map.get id h.pending_probes) ≡ false

all_in_remote :
    (a : PeerId) (peers confirmed : List PeerId)
    → all_in peers confirmed ≡ true
    → mem a confirmed ≡ false
    → mem a peers ≡ false
unfolding all_in
all_in_remote a [] confirmed h m = refl
all_in_remote a (peer ∷ peers) confirmed h m = ground (arith, all_in_remote a peers confirmed)

-- A first part that lacks an element of the whole is as long as asked.
length-take_lacking :
    (a : PeerId) (n : ℕ) (ranking : List (ℕ × PeerId))
    → 1 ≤ count a (map (λ s. s.1) ranking)
    → mem a (map (λ s. s.1) (take n ranking)) ≡ false
    → length (map (λ (s : ℕ × PeerId). s.1) (take n ranking)) ≡ n
unfolding count
length-take_lacking a zero ranking c m = refl
length-take_lacking a (suc n) [] c m = absurd (omega arith)
length-take_lacking a (suc n) (s ∷ ranking) c m = ground (arith, length-take_lacking a n ranking)

module _ (crates : Crates) (net : Libp2p) (chan : CommandChannel) where
  -- Where this peer is not to hold a chunk, two others are.
  designated_elsewhere :
      (hash : ChunkHash) (swarm : net.Swarm)
      → mem
          (net.local_peer_id swarm)
          (designated_holders crates net hash (current_members crates net swarm))
        ≡ false
      → length (designated_holders crates net hash (current_members crates net swarm)) ≡ 2
  designated_elsewhere hash swarm m =
      let members : List PeerId = current_members crates net swarm in
      let local : PeerId = net.local_peer_id swarm in
      let (ranking, _, _, counts, first) =
        top_peers-Ranked net.sha256 net.hash_bytes net.to_bytes hash members in
      let known : mem local members ≡ true =
        ground (arith, mem-append local (net.connected_peers swarm) (local ∷ [])) in
      let ranked : 1 ≤ count local (map (λ (s : ℕ × PeerId). s.1) ranking) =
        ground (arith, counts local, mem-eq-false local members, known) in
      let lacks : mem local (map (λ (s : ℕ × PeerId). s.1) (take 2 ranking)) ≡ false =
        subst (λ xs. mem local xs ≡ false) (first 2) m in
      ap length (first 2) ∙ length-take_lacking local 2 ranking ranked lacks

  -- An eviction leaves the chunks alone that it does not name.
  get-evict_all :
      (completed : List ChunkHash) (confirmed : Map (List PeerId))
      (fs : FileSystem (crates.Replica)) (hash : ChunkHash)
      → mem hash completed ≡ false
      → Map.get hash (evict_all crates net chan completed confirmed fs).1.storage.chunks
        ≡ Map.get hash fs.storage.chunks
  unfolding evict_all
  get-evict_all [] confirmed fs hash m = refl
  get-evict_all (c ∷ completed) confirmed fs hash m =
      get-evict_all completed (Map.remove c confirmed)
        (if Storage.is_pinned fs.storage c then (evict_chunk crates fs c).1 else fs) hash
        (ground arith)
      ∙ ground (arith, (evict_lem fs.storage c).1 hash)

  pub evict_all_remote :
      (local : PeerId) (completed : List ChunkHash) (confirmed : Map (List PeerId))
      (fs : FileSystem (crates.Replica))
      → Map.Distinct confirmed
      → ((hash : ChunkHash) → is_confirmed local (Map.get hash confirmed) ≡ false)
      → Map.Distinct (evict_all crates net chan completed confirmed fs).0
        × ((hash : ChunkHash)
            → is_confirmed local (Map.get hash (evict_all crates net chan completed confirmed fs).0)
              ≡ false)
  unfolding evict_all
  evict_all_remote local [] confirmed fs d r = (d, r)
  evict_all_remote local (c ∷ completed) confirmed fs d r =
      evict_all_remote local completed (Map.remove c confirmed) _ (remove-Distinct c confirmed d)
        (λ hash. ground (arith, get-remove c hash confirmed, r hash))

  -- What an eviction of a chunk rests on.
  pub record IsHeldElsewhere (fuel : ℕ) (hash : ChunkHash) (confirmed : List PeerId)
      (ctx : Ctx crates net) : Type 0 where
    pub live : List ChunkHash
    pub searched : reachable_chunk_hashes crates fuel ctx.filesystem ≡ some live
    pub is_live : mem hash live ≡ true
    pub not_designated :
        mem
          (net.local_peer_id ctx.swarm)
          (designated_holders crates net hash (current_members crates net ctx.swarm))
        ≡ false
    pub two_designated :
        length (designated_holders crates net hash (current_members crates net ctx.swarm)) ≡ 2
    pub all_confirmed :
        all_in (designated_holders crates net hash (current_members crates net ctx.swarm)) confirmed
        ≡ true

  evict_live_lem :
      (fuel : ℕ) (live : List ChunkHash) (h : Handler crates net chan) (ctx : Ctx crates net)
      (hash : ChunkHash)
      → IsRemote (net.local_peer_id ctx.swarm) h
      → reachable_chunk_hashes crates fuel ctx.filesystem ≡ some live
      → (Map.get hash (evict_live crates net chan live h ctx).1.filesystem.storage.chunks
          ≡ Map.get hash ctx.filesystem.storage.chunks)
        ⊎ IsHeldElsewhere fuel hash (or_default (Map.get hash h.confirmed_holders)) ctx
  evict_live_lem fuel live h ctx hash r found =
      let members : List PeerId = current_members crates net ctx.swarm in
      let completed : List ChunkHash = completed_in crates net live members h.confirmed_holders in
      elim (Bool-cases (mem hash completed)) [
        | inr m ↦ inl (get-evict_all completed h.confirmed_holders ctx.filesystem hash m)
        | inl m ↦
            let (is_live, all_confirmed) =
              mem-completed_in crates net (net.local_peer_id ctx.swarm) live members
                h.confirmed_holders hash r.confirmed-Distinct m in
            let elsewhere =
              all_in_remote (net.local_peer_id ctx.swarm)
                (designated_holders crates net hash members)
                (or_default (Map.get hash h.confirmed_holders)) all_confirmed
                (r.confirmed_remote hash) in
            inr (record {
              live = live;
              searched = found;
              is_live = is_live;
              not_designated = elsewhere;
              two_designated = designated_elsewhere hash ctx.swarm elsewhere;
              all_confirmed = all_confirmed;
            })
      ]

  -- `evict_confirmed` takes a chunk away, or changes how it is stored, only where the chunk is reachable,
  -- this peer is not among its designated holders, there are two of those, and each has confirmed it.
  pub evict_confirmed_safe :
      (fuel : ℕ) (h : Handler crates net chan) (ctx : Ctx crates net)
      (after : Handler crates net chan × Ctx crates net) (hash : ChunkHash)
      → IsRemote (net.local_peer_id ctx.swarm) h
      → evict_confirmed crates net chan fuel h ctx ≡ some after
      → (Map.get hash after.1.filesystem.storage.chunks
          ≡ Map.get hash ctx.filesystem.storage.chunks)
        ⊎ IsHeldElsewhere fuel hash (or_default (Map.get hash h.confirmed_holders)) ctx
  unfolding evict_confirmed
  evict_confirmed_safe fuel h ctx after hash r done =
      elim (Option-cases (reachable_chunk_hashes crates fuel ctx.filesystem)) [
        | inl n ↦ absurd (ground (arith, n))
        | inr (live, found) ↦
            let same : evict_live crates net chan live h ctx ≡ after = ground (arith, found) in
            subst
              (λ (a : Handler crates net chan × Ctx crates net).
                (Map.get hash a.1.filesystem.storage.chunks
                  ≡ Map.get hash ctx.filesystem.storage.chunks)
                ⊎ IsHeldElsewhere fuel hash (or_default (Map.get hash h.confirmed_holders)) ctx)
              same (evict_live_lem fuel live h ctx hash r found)
      ]
