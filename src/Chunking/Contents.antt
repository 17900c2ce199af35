-- ===== src/Chunking/Contents.antt =====
-- What a list of references stands for: the bytes that a read finds behind it.
use edfs.Domain.{Bytes, ChunkHash, ChunkRef}
use edfs.Chunking.{truncate}
use edfs.Prelude.{
  ℕ, zero, ◌+◌, ◌-◌, ◌≤◌, ◌≡◌, refl, sym, ap, ap₂, ◌∙◌, ◌≡⟨◌⟩◌, ◌∎, suc, ◌<◌, leb→le, min, Option,
  none, some, true, false, Bool-cases, inl, inr, List, [], ◌∷◌, ◌++◌, arith, All, length, take,
  replicate, length-append, length-take, take-append, take-nil, take-eq_self, take-take,
  take-replicate, leb,
}

abbrev pub total_size : List ChunkRef → ℕ
total_size [] = 0
total_size (r ∷ rs) = r.size + total_size rs

-- A chunk that is not held reads as zeros.
abbrev pub padded : ℕ → Option Bytes → Bytes
padded size none = replicate size 0
padded size (some bytes) = bytes

truncate-nil : (n : ℕ) → truncate [] n ≡ []
unfolding truncate
truncate-nil n = refl

truncate-zero : (r : ChunkRef) (rs : List ChunkRef) → truncate (r ∷ rs) 0 ≡ []
unfolding truncate
truncate-zero r rs = refl

module _ (r : ChunkRef) (rs : List ChunkRef) (n : ℕ) where
  truncate_whole :
      leb r.size (suc n) ≡ true → truncate (r ∷ rs) (suc n) ≡ r ∷ truncate rs (suc n - r.size)
  unfolding truncate
  truncate_whole whole = ground arith

  truncate_part :
      leb r.size (suc n) ≡ false
      → truncate (r ∷ rs) (suc n) ≡ record { hash = r.hash; size = suc n } ∷ []
  unfolding truncate
  truncate_part part = ground arith

padded-take :
    (n size : ℕ) (held : Option Bytes)
    → n ≤ size
    → take n (padded n held) ≡ take n (take size (padded size held))
padded-take n size none h = ground (
  arith,
  take-take {A = ℕ} n size (replicate size 0),
  take-replicate {A = ℕ} n n 0,
  take-replicate {A = ℕ} n size 0,
)
padded-take n size (some bytes) h = ground (arith, take-take n size bytes)

-- `store` says what is held under a hash. A reference stands for the first `size` bytes.
module _ (store : ChunkHash → Option Bytes) where
  abbrev pub piece : ChunkRef → Bytes
  piece r = take r.size (padded r.size (store r.hash))

  abbrev pub contents : List ChunkRef → Bytes
  contents [] = []
  contents (r ∷ rs) = piece r ++ contents rs

  -- What is held under a reference's hash is as long as the reference says, or longer.
  abbrev pub IsCovered : List ChunkRef → Type 0
  IsCovered = All (λ r. r.size ≤ length (padded r.size (store r.hash)))

  pub length-contents : (rs : List ChunkRef) → IsCovered rs → length (contents rs) ≡ total_size rs
  length-contents [] c = refl
  length-contents (r ∷ rs) c = omega (
    arith,
    length-append (piece r) (contents rs),
    length-contents rs c.1,
    length-take r.size (padded r.size (store r.hash)),
    c.0,
  )

  pub length-piece :
      (r : ChunkRef) → r.size ≤ length (padded r.size (store r.hash)) → length (piece r) ≡ r.size
  length-piece r c = omega (arith, length-take r.size (padded r.size (store r.hash)))

  take_whole :
      (r : ChunkRef) (rs : List ChunkRef) (n : ℕ)
      → r.size ≤ length (padded r.size (store r.hash))
      → r.size ≤ n
      → take n (piece r ++ contents rs) ≡ piece r ++ take (n - r.size) (contents rs)
  take_whole r rs n c h =
      rw (take-append n (piece r) (contents rs), length-piece r c)
        (ap (λ p. p ++ take (n - r.size) (contents rs))
          (take-eq_self n (piece r) (omega (arith, length-piece r c))))

  take_part :
      (r : ChunkRef) (rs : List ChunkRef) (n : ℕ)
      → r.size ≤ length (padded r.size (store r.hash))
      → n < r.size
      → take n (piece r ++ contents rs) ≡ take n (padded n (store r.hash)) ++ []
  take_part r rs n c h =
      take n (piece r ++ contents rs)
      ≡⟨ take-append n (piece r) (contents rs) ⟩
        take n (piece r) ++ take (n - length (piece r)) (contents rs)
      ≡⟨ ap₂ ◌++◌ (sym (padded-take n r.size (store r.hash) (omega arith))) (
          ap (λ k. take k (contents rs))
            (let e : n - length (piece r) ≡ 0 = omega (arith, length-piece r c) in e)) ⟩
        take n (padded n (store r.hash)) ++ [] ∎

  -- For references that are covered by what is held, truncation cuts the contents at `n` and keeps
  -- what lies before.
  pub contents-truncate :
      (rs : List ChunkRef) (n : ℕ) → IsCovered rs → contents (truncate rs n) ≡ take n (contents rs)
  contents-truncate [] n c = rw (truncate-nil, take-nil)
  contents-truncate (r ∷ rs) zero c = rw truncate-zero
  contents-truncate (r ∷ rs) (suc n) c = elim (Bool-cases (leb r.size (suc n))) [
    | inl whole ↦ rw (truncate_whole r rs n whole) (
        ap (◌++◌ (piece r)) (contents-truncate rs (suc n - r.size) c.1)
        ∙ sym (take_whole r rs (suc n) c.0 (leb→le _ _ whole)))
    | inr part ↦ rw (truncate_part r rs n part) (sym (take_part r rs (suc n) c.0 (ground arith)))
  ]

-- The sizes add up to the new size, or to the old total if that is smaller.
pub total_size-truncate :
    (rs : List ChunkRef) (n : ℕ) → total_size (truncate rs n) ≡ min n (total_size rs)
unfolding truncate
total_size-truncate [] n = omega arith
total_size-truncate (r ∷ rs) n = ground (arith, total_size-truncate rs (n - r.size))
