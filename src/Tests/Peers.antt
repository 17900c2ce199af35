-- ===== src/Tests/Peers.antt =====
-- The ranking of peers, with bytes for peers and a sum for the digest.
use edfs.Crates.{PeerId}
use edfs.Domain.{Bytes}
use edfs.Hrw.{top_peers, insert, sort, hrw_score}
use edfs.Prelude.{ℕ, ◌≡◌, ◌+◌, refl, List, [], ◌∷◌, foldl}

abbrev sum_digest : Bytes → Bytes
sum_digest bytes = foldl (λ n b. n + b) 0 bytes ∷ []

abbrev single : ℕ → Bytes
single n = n ∷ []

abbrev members : List PeerId
members = 4 ∷ 9 ∷ 6 ∷ []

best_two : top_peers sum_digest single single 5 members 2 ≡ 9 ∷ 6 ∷ []
unfolding top_peers sort insert hrw_score
best_two = refl
