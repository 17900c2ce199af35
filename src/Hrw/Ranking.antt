-- ===== src/Hrw/Ranking.antt =====
-- `top_peers`: all members, ranked, up to `n` of them.
use edfs.Crates.{PeerId}
use edfs.Domain.{Bytes, ChunkHash}
use edfs.Hrw.{lex_ltb, hrw_score, in_order, insert, sort, top_peers}
use edfs.Prelude.{
  ℕ, ◌≡◌, refl, ◌∙◌, true, false, Bool-cases, inl, inr, List, [], ◌∷◌, map, take, count, All, arith,
}

lex_total : (xs ys : Bytes) → lex_ltb xs ys ≡ true → lex_ltb ys xs ≡ false
lex_total [] [] h = refl
lex_total (x ∷ xs) [] h = cc
lex_total [] (y ∷ ys) h = refl
lex_total (x ∷ xs) (y ∷ ys) h = ground (arith, lex_total xs ys)

module _ (sha256 : Bytes → Bytes) (hash_bytes : ChunkHash → Bytes) (to_bytes : PeerId → Bytes) where
  -- Each peer ranks before the next, or as high.
  abbrev pub Ranked : List (ℕ × PeerId) → Type 0
  Ranked [] = Unit
  Ranked (a ∷ []) = Unit
  Ranked (a ∷ b ∷ bs) = (in_order sha256 hash_bytes to_bytes a b ≡ true) × Ranked (b ∷ bs)

  in_order_total :
      (a b : ℕ × PeerId)
      → in_order sha256 hash_bytes to_bytes a b ≡ false
      → in_order sha256 hash_bytes to_bytes b a ≡ true
  in_order_total a b h = ground (arith, lex_total (to_bytes a.1) (to_bytes b.1))

  insert-Ranked_behind :
      (b a : ℕ × PeerId) (bs : List (ℕ × PeerId))
      → Ranked (b ∷ bs)
      → in_order sha256 hash_bytes to_bytes b a ≡ true
      → Ranked (b ∷ insert sha256 hash_bytes to_bytes a bs)
  unfolding insert
  insert-Ranked_behind b a [] r h = (h, tt)
  insert-Ranked_behind b a (c ∷ cs) r h =
      elim (Bool-cases (in_order sha256 hash_bytes to_bytes a c)) [
        | inl before ↦ rw (insert, before) (h, (before, r.1))
        | inr later ↦
            rw (insert, later) (r.0, insert-Ranked_behind c a cs r.1 (in_order_total a c later))
      ]

  insert-Ranked :
      (a : ℕ × PeerId) (bs : List (ℕ × PeerId))
      → Ranked bs
      → Ranked (insert sha256 hash_bytes to_bytes a bs)
  unfolding insert
  insert-Ranked a [] r = tt
  insert-Ranked a (b ∷ bs) r = elim (Bool-cases (in_order sha256 hash_bytes to_bytes a b)) [
    | inl before ↦ rw (insert, before) (before, r)
    | inr later ↦ rw (insert, later) (insert-Ranked_behind b a bs r (in_order_total a b later))
  ]

  count-insert :
      (j : PeerId) (a : ℕ × PeerId) (bs : List (ℕ × PeerId))
      → count j (map (λ s. s.1) (insert sha256 hash_bytes to_bytes a bs))
        ≡ count j (map (λ s. s.1) (a ∷ bs))
  unfolding insert count
  count-insert j a [] = refl
  count-insert j a (b ∷ bs) = ground (arith, count-insert j a bs)

  sort-Ranked : (scored : List (ℕ × PeerId)) → Ranked (sort sha256 hash_bytes to_bytes scored)
  unfolding sort
  sort-Ranked [] = tt
  sort-Ranked (a ∷ bs) = insert-Ranked a (sort sha256 hash_bytes to_bytes bs) (sort-Ranked bs)

  pub count-sort :
      (j : PeerId) (scored : List (ℕ × PeerId))
      → count j (map (λ s. s.1) (sort sha256 hash_bytes to_bytes scored))
        ≡ count j (map (λ s. s.1) scored)
  unfolding sort count
  count-sort j [] = refl
  count-sort j (a ∷ bs) =
      ground (arith, count-insert j a (sort sha256 hash_bytes to_bytes bs), count-sort j bs)

  -- The score of each entry is the peer's score for the hash.
  abbrev pub IsScored : ChunkHash → List (ℕ × PeerId) → Type 0
  IsScored hash = All (λ s. s.0 ≡ hrw_score sha256 hash_bytes to_bytes hash s.1)

  insert-IsScored :
      (hash : ChunkHash) (a : ℕ × PeerId) (bs : List (ℕ × PeerId))
      → IsScored hash (a ∷ bs)
      → IsScored hash (insert sha256 hash_bytes to_bytes a bs)
  unfolding insert
  insert-IsScored hash a [] p = p
  insert-IsScored hash a (b ∷ bs) p = elim (Bool-cases (in_order sha256 hash_bytes to_bytes a b)) [
    | inl before ↦ rw (insert, before) p
    | inr later ↦ rw (insert, later) (p.1.0, insert-IsScored hash a bs (p.0, p.1.1))
  ]

  sort-IsScored :
      (hash : ChunkHash) (scored : List (ℕ × PeerId))
      → IsScored hash scored
      → IsScored hash (sort sha256 hash_bytes to_bytes scored)
  unfolding sort
  sort-IsScored hash [] p = tt
  sort-IsScored hash (a ∷ bs) p =
      insert-IsScored hash a (sort sha256 hash_bytes to_bytes bs) (p.0, sort-IsScored hash bs p.1)

  map-IsScored :
      (hash : ChunkHash) (peers : List PeerId)
      → IsScored hash (map (λ peer. (hrw_score sha256 hash_bytes to_bytes hash peer, peer)) peers)
  map-IsScored hash [] = tt
  map-IsScored hash (p ∷ peers) = (refl, map-IsScored hash peers)

  pub peers_scored :
      (j : PeerId) (f : PeerId → ℕ) (peers : List PeerId)
      → count j (map (λ (s : ℕ × PeerId). s.1) (map (λ peer. (f peer, peer)) peers)) ≡ count j peers
  unfolding count
  peers_scored j f [] = refl
  peers_scored j f (p ∷ peers) = ground (arith, peers_scored j f peers)

  pub top_peers-Ranked :
      (hash : ChunkHash) (members : List PeerId)
      → (ranking : List (ℕ × PeerId)) × Ranked ranking
        × IsScored hash ranking
        × ((j : PeerId) → count j (map (λ s. s.1) ranking) ≡ count j members)
        × ((n : ℕ)
            → top_peers sha256 hash_bytes to_bytes hash members n ≡ map (λ s. s.1) (take n ranking))
  unfolding top_peers
  top_peers-Ranked hash members =
      let scored : List (ℕ × PeerId) =
        map (λ peer. (hrw_score sha256 hash_bytes to_bytes hash peer, peer)) members in
      (
        sort sha256 hash_bytes to_bytes scored,
        sort-Ranked scored,
        sort-IsScored hash scored (map-IsScored hash members),
        (λ j.
            count-sort j scored
            ∙ peers_scored j (hrw_score sha256 hash_bytes to_bytes hash) members),
        λ n. refl,
      )
