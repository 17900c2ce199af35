-- ===== src/Network/Fetcher/Targets.antt =====
-- src/network/handlers/chunk.rs: `next_targets`, the peers that a fetch asks next.
use edfs.Crates.{Crates, PeerId}
use edfs.Domain.{ChunkHash}
use edfs.Hrw.{top_peers, sort, insert, hrw_score}
use edfs.Hrw.Ranking.{count-sort, peers_scored}
use edfs.Network.Fetcher.{next_targets, untried}
use edfs.Network.Swarm.{Libp2p}
use edfs.Prelude.{
  ℕ, suc, zero, ◌≡◌, refl, ◌⊎◌, ◌≤◌, ◌≢◌, List-cases, ◌+◌, true, false, List, [], ◌∷◌, mem, length,
  length-take, count, count-eq-zero, mem-eq-false, arith, Bool-cases, inl, inr, ap, ◌∙◌, map, take,
}

mem-untried :
    (p : PeerId) (tried peers : List PeerId)
    → (mem p (untried tried peers) ≡ true) ⊎ (mem p peers ≡ false) ⊎ (mem p tried ≡ true)
unfolding untried
mem-untried p tried [] = inr (inl refl)
mem-untried p tried (peer ∷ peers) = ground (arith, mem-untried p tried peers)

untried_new :
    (p : PeerId) (tried peers : List PeerId)
    → mem p (untried tried peers) ≡ true
    → (mem p peers ≡ true) × (mem p tried ≡ false)
unfolding untried
untried_new p tried [] h = absurd (ground arith)
untried_new p tried (peer ∷ peers) h = ground (arith, untried_new p tried peers)

mem-take_some : (p : PeerId) (n : ℕ) (xs : List PeerId) → mem p (take n xs) ≡ true → mem p xs ≡ true
mem-take_some p zero xs h = absurd (ground arith)
mem-take_some p (suc n) [] h = h
mem-take_some p (suc n) (x ∷ xs) h = ground (arith, mem-take_some p n xs)

take_all {ℓ} : {A : Type ℓ} (n : ℕ) (xs : List A) → length xs ≤ n → take n xs ≡ xs
take_all zero [] h = refl
take_all zero (x ∷ xs) h = absurd (omega arith)
take_all (suc n) [] h = refl
take_all (suc n) (x ∷ xs) h = ap {B = List _} (λ rest. x ∷ rest) (take_all n xs (omega arith))

length-map {ℓ κ} :
    {A : Type ℓ} {B : Type κ} (f : A → B) (xs : List A) → length (map f xs) ≡ length xs
length-map f [] = refl
length-map f (x ∷ xs) = ap suc (length-map f xs)

module _ (crates : Crates) (net : Libp2p) where
  open net use {sha256, hash_bytes, to_bytes}

  length-insert :
      (a : ℕ × PeerId) (bs : List (ℕ × PeerId))
      → length (insert sha256 hash_bytes to_bytes a bs) ≡ length bs + 1
  unfolding insert
  length-insert a [] = omega arith
  length-insert a (b ∷ bs) = ground (arith, length-insert a bs)

  length-sort : (bs : List (ℕ × PeerId)) → length (sort sha256 hash_bytes to_bytes bs) ≡ length bs
  unfolding sort
  length-sort [] = refl
  length-sort (a ∷ bs) =
      ground (arith, length-sort bs, length-insert a (sort sha256 hash_bytes to_bytes bs))

  count-top_peers :
      (j : PeerId) (hash : ChunkHash) (members : List PeerId)
      → count j (top_peers sha256 hash_bytes to_bytes hash members (length members))
        ≡ count j members
  unfolding top_peers
  count-top_peers j hash members =
      let scored : List (ℕ × PeerId) =
        map (λ peer. (hrw_score sha256 hash_bytes to_bytes hash peer, peer)) members in
      let ranking : List (ℕ × PeerId) = sort sha256 hash_bytes to_bytes scored in
      let short : length ranking ≤ length members = omega (
        arith,
        length-sort scored,
        length-map {B = ℕ × PeerId} (λ peer. (hrw_score sha256 hash_bytes to_bytes hash peer, peer))
            members,
      ) in
      ap (λ (r : List (ℕ × PeerId)). count j (map (λ s. s.1) r))
        (take_all (length members) ranking short)
      ∙ count-sort sha256 hash_bytes to_bytes j scored
      ∙ peers_scored sha256 hash_bytes to_bytes j (hrw_score sha256 hash_bytes to_bytes hash)
          members

  mem-top_peers :
      (p : PeerId) (hash : ChunkHash) (members : List PeerId)
      → mem p (top_peers sha256 hash_bytes to_bytes hash members (length members)) ≡ mem p members
  mem-top_peers p hash members =
      let all : List PeerId = top_peers sha256 hash_bytes to_bytes hash members (length members) in
      ground (
        arith,
        count-top_peers p hash members,
        mem-eq-false p all,
        count-eq-zero p all,
        mem-eq-false p members,
        count-eq-zero p members,
      )

  -- The next targets are at most `limit` connected peers that were not tried; and there is one, unless every
  -- connected peer was tried.
  pub next_targets_complete :
      (hash : ChunkHash) (connected tried : List PeerId) (limit : ℕ) (p : PeerId)
      → 1 ≤ limit
      → (length (next_targets crates net hash connected tried limit) ≤ limit)
        × ((mem p (next_targets crates net hash connected tried limit) ≡ false)
            ⊎ ((mem p connected ≡ true) × (mem p tried ≡ false)))
        × ((next_targets crates net hash connected tried limit ≢ [])
            ⊎ (mem p connected ≡ false)
            ⊎ (mem p tried ≡ true))
  unfolding next_targets
  next_targets_complete hash connected tried limit p some_asked =
      let all : List PeerId =
        top_peers sha256 hash_bytes to_bytes hash connected (length connected) in
      let new_ones : List PeerId = untried tried all in
      let within = mem-top_peers p hash connected in
      (
        omega (arith, length-take limit new_ones),
        elim (Bool-cases (mem p (take limit new_ones))) [
          | inl e ↦
              let new_one = untried_new p tried all (mem-take_some p limit new_ones e) in
              inr (ground (arith, within, new_one.0), new_one.1)
          | inr e ↦ inl e
        ],
        elim (List-cases new_ones) [
          | inl none_left ↦
              inr (ground (arith, within, mem-untried p tried all, ap (mem p) none_left))
          | inr (x, rest, e) ↦
              inl
                (λ empty. ground (arith, length-take limit new_ones, ap length e, ap length empty))
        ],
      )
