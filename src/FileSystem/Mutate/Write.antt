-- ===== src/FileSystem/Mutate/Write.antt =====
-- `write_file`: what it wrote is what a read returns.
use edfs.Domain.{Bytes, Chunk, ChunkHash, reference}
use edfs.Chunking.Contents.{padded, contents, IsCovered}
use edfs.Chunking.Pieces.{joined, AreAddressed}
use edfs.Storage.{ChunkStorage}
use edfs.Storage.Access.{bytes_of}
use edfs.Storage.History.{IsAddressed, Addressed}
use edfs.Storage.Pinning.{first_with}
use edfs.Storage.Pinning.Loops.{AllPinned}
use edfs.FileSystem.Read.Range.{held_in}
use edfs.Prelude.Map
use edfs.Prelude.Map.{is_some}
use edfs.Prelude.{
  ◌≤◌, ◌≡◌, ◌≢◌, refl, sym, ap, ap₂, subst, ◌∙◌, ◌⊎◌, Option, none, some, Option-cases, inl, inr,
  true, List, [], ◌∷◌, ◌++◌, map, All, All-mono, All-zip, arith, length, take, take-eq_self,
}

module _ (digest : Bytes → ChunkHash) where
  -- SHA-256 gives different digests to the different byte strings that meet here: those that the
  -- storage holds, and those of the chunks.
  abbrev pub Unlike : Bytes → Bytes → Type 0
  Unlike a b = (digest a ≢ digest b) ⊎ (a ≡ b)

  abbrev pub UnlikeHeld : Option Bytes → Bytes → Type 0
  UnlikeHeld none b = Unit
  UnlikeHeld (some a) b = Unlike a b

  abbrev pub IsUnlike : ChunkStorage → List Chunk → Chunk → Type 0
  IsUnlike s cs c =
      ((h : ChunkHash) → UnlikeHeld (held_in s h) c.bytes) × All (λ d. Unlike d.bytes c.bytes) cs

  abbrev pub NoCollision : ChunkStorage → List Chunk → Type 0
  NoCollision s cs = All (IsUnlike s cs) cs

  -- The first chunk with a hash is as good as any.
  first_with-eq :
      (h : ChunkHash) (bytes : Bytes) (cs : List Chunk) (b : Bytes)
      → All (λ d. Unlike d.bytes bytes) cs
      → AreAddressed digest cs
      → digest bytes ≡ h
      → first_with h cs ≡ some b
      → b ≡ bytes
  first_with-eq h bytes [] b differ addressed e found = cc
  first_with-eq h bytes (d ∷ cs) b differ addressed e found =
      ground (arith, first_with-eq h bytes cs b differ.1 addressed.1 e)

  found_self : (cs : List Chunk) → All (λ c. is_some (first_with c.hash cs) ≡ true) cs
  found_self [] = tt
  found_self (d ∷ cs) = (ground arith, All-mono _ _ cs (λ c h. ground arith) (found_self cs))

  held_one :
      (s r : ChunkStorage) (cs : List Chunk) (c : Chunk)
      → IsAddressed digest s
      → AllPinned s cs r
      → AreAddressed digest cs
      → IsUnlike s cs c
      → c.hash ≡ digest c.bytes
      → is_some (first_with c.hash cs) ≡ true
      → held_in r c.hash ≡ some c.bytes
  held_one s r cs c a p addressed unlike e found = elim (Option-cases (first_with c.hash cs)) [
    | inl absent ↦ absurd (ground arith)
    | inr (b, first) ↦
        let same = first_with-eq c.hash c.bytes cs b unlike.1 addressed (sym e) first in
        elim (Option-cases (Map.get c.hash s.chunks)) [
          | inl fresh ↦ ground (arith, p.entries c.hash)
          | inr (entry, held) ↦
              let key : digest entry.bytes ≡ c.hash =
                subst (λ o. Addressed digest (bytes_of o) c.hash) held (a c.hash) in
              let unlike_held : Unlike entry.bytes c.bytes =
                subst (λ o. UnlikeHeld (bytes_of o) c.bytes) held (unlike.0 c.hash) in
              ground (arith, p.entries c.hash)
        ]
  ]

  pub held-AllPinned :
      (s r : ChunkStorage) (cs : List Chunk)
      → IsAddressed digest s
      → AllPinned s cs r
      → NoCollision s cs
      → AreAddressed digest cs
      → All (λ c. held_in r c.hash ≡ some c.bytes) cs
  held-AllPinned s r cs a p n addressed =
      All-mono _ _ cs (λ c h. held_one s r cs c a p addressed h.0 h.1.0 h.1.1)
        (All-zip _ _ cs n (All-zip _ _ cs addressed (found_self cs)))

-- With every chunk held, the references stand for the chunks joined.
pub contents-reference :
    (s : ChunkStorage) (cs : List Chunk)
    → All (λ c. held_in s c.hash ≡ some c.bytes) cs
    → (contents (held_in s) (map reference cs) ≡ joined cs)
      × IsCovered (held_in s) (map reference cs)
contents-reference s [] h = (refl, tt)
contents-reference s (c ∷ cs) h =
    let (whole, covered) = contents-reference s cs h.1 in
    (
      ap₂ ◌++◌
          (ap (λ held. take (length c.bytes) (padded (length c.bytes) held)) h.0
            ∙ take-eq_self (length c.bytes) c.bytes (omega arith))
          whole,
      (
        subst (λ held. length c.bytes ≤ length (padded (length c.bytes) held)) (sym h.0)
            (omega arith),
        covered,
      ),
    )
