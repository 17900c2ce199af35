-- ===== src/Hrw.antt =====
-- src/network/hrw.rs: `top_peers`, the peers with the highest random weight for a chunk. SHA-256,
-- the bytes of a hash and those of a peer are arguments. `sort_by`, which is stable, is an insertion
-- sort from the back.
pub mod Ranking
use edfs.Crates.{PeerId}
use edfs.Domain.{Bytes, ChunkHash}
use edfs.Prelude.{
  ℕ, ◌+◌, ◌*◌, Bool, true, false, not, ◌&&◌, ◌||◌, ◌==◌, ltb, List, [], ◌∷◌, ◌++◌, map, foldl, take,
  if◌then◌else◌,
}

-- `u64::from_be_bytes`.
abbrev pub from_be_bytes : Bytes → ℕ
from_be_bytes bytes = foldl (λ n b. n * 256 + b) 0 bytes

-- `a < b` on byte vectors.
abbrev pub lex_ltb : Bytes → Bytes → Bool
lex_ltb xs [] = false
lex_ltb [] (y ∷ ys) = true
lex_ltb (x ∷ xs) (y ∷ ys) = ltb x y || (x == y && lex_ltb xs ys)

module _ (sha256 : Bytes → Bytes) (hash_bytes : ChunkHash → Bytes) (to_bytes : PeerId → Bytes) where
  unfoldable pub hrw_score : ChunkHash → PeerId → ℕ
  hrw_score hash peer = from_be_bytes (take 8 (sha256 (hash_bytes hash ++ to_bytes peer)))

  -- The closure of `sort_by` does not answer `Greater` for `a` and `b`.
  abbrev pub in_order : ℕ × PeerId → ℕ × PeerId → Bool
  in_order a b = ltb b.0 a.0 || (b.0 == a.0 && not (lex_ltb (to_bytes a.1) (to_bytes b.1)))

  unfoldable pub insert : ℕ × PeerId → List (ℕ × PeerId) → List (ℕ × PeerId)
  insert a [] = a ∷ []
  insert a (b ∷ bs) = let rest = insert a bs in if in_order a b then a ∷ b ∷ bs else b ∷ rest

  unfoldable pub sort : List (ℕ × PeerId) → List (ℕ × PeerId)
  sort [] = []
  sort (a ∷ bs) = insert a (sort bs)

  unfoldable pub top_peers : ChunkHash → List PeerId → ℕ → List PeerId
  top_peers hash members n =
      map (λ scored. scored.1) (take n (sort (map (λ peer. (hrw_score hash peer, peer)) members)))
