-- ===== src/FileSystem/Mutate/Truncation.antt =====
-- `truncate_file`, followed by a read of the whole file.
use edfs.Crates.{Crates, TreeLaws}
use edfs.Chunking.{truncate}
use edfs.Chunking.Contents.{padded, contents, contents-truncate, IsCovered, total_size-truncate}
use edfs.Domain.{Bytes, ChunkHash, ChunkRef, NodeId, regular_file}
use edfs.Storage.Accounts.{IsValid}
use edfs.Tree.Moves.{IsReady}
use edfs.FileSystem.{FileSystem, metadata}
use edfs.FileSystem.Nodes.{Stands, metadata-Stands, Stands-metadata, root-ne-file}
use edfs.FileSystem.Read.{read_file_all}
use edfs.FileSystem.Read.Range.{held_in, AreAllocatable}
use edfs.FileSystem.Read.File.{IsFile, read_file_short, read_file_long}
use edfs.FileSystem.Mutate.{TreeMutation, truncate_file, update_meta}
use edfs.FileSystem.Mutate.RoundTrip.{read_file_all-eq}
use edfs.FileSystem.Mutate.Update.{update_meta-Stands}
use edfs.Prelude.{
  ℕ, ◌+◌, ◌-◌, ◌≤◌, ◌<◌, ◌^◌, ◌≡◌, refl, sym, ap, subst, ◌∙◌, min, String, Option, none, some, List,
  [], ◌∷◌, length, take, slice, take-take, length-replicate, ok, panic, arith, Bool-cases, inl, inr,
  leb, ltb, ◌⊎◌, ◌==◌,
}

padded_long :
    (n size : ℕ) (held : Option Bytes)
    → n ≤ size
    → size ≤ length (padded size held)
    → n ≤ length (padded n held)
padded_long n size none h c = omega (arith, length-replicate {A = ℕ} n 0)
padded_long n size (some bytes) h c = omega arith

-- The references that a truncation leaves are covered.
truncate-IsCovered :
    (store : ChunkHash → Option Bytes) (rs : List ChunkRef) (n : ℕ)
    → IsCovered store rs
    → IsCovered store (truncate rs n)
unfolding truncate
truncate-IsCovered store [] n c = tt
truncate-IsCovered store (r ∷ rs) n c = elim (Bool-cases (n == 0)) [
  | inl zero_left ↦ rw (truncate, zero_left) tt
  | inr some_left ↦ elim (Bool-cases (leb r.size n)) [
    | inl whole ↦
        rw (truncate, some_left, whole) (c.0, truncate-IsCovered store rs (n - r.size) c.1)
    | inr part ↦
        rw (truncate, some_left, part) (padded_long n r.size (store r.hash) (ground arith) c.0, tt)
  ]
]

-- They stay short of what a vector can hold.
truncate-AreAllocatable :
    (rs : List ChunkRef) (n : ℕ) → AreAllocatable rs → AreAllocatable (truncate rs n)
unfolding truncate
truncate-AreAllocatable [] n a = tt
truncate-AreAllocatable (r ∷ rs) n a = elim (Bool-cases (n == 0)) [
  | inl zero_left ↦ rw (truncate, zero_left) tt
  | inr some_left ↦ elim (Bool-cases (leb r.size n)) [
    | inl whole ↦ rw (truncate, some_left, whole) (a.0, truncate-AreAllocatable rs (n - r.size) a.1)
    | inr part ↦
        let less : n < 2 ^ 63 = ground (arith, a.0) in rw (truncate, some_left, part) (less, tt)
  ]
]

module _ (crates : Crates) where
  open crates use {Replica}

  truncate_file-eq :
      (now : ℕ) (fs : FileSystem Replica) (node_id : NodeId) (n : ℕ) {name : String} {size : ℕ}
      {rs : List ChunkRef}
      → metadata crates fs node_id ≡ ok (regular_file name size rs)
      → truncate_file crates now fs node_id n
        ≡ update_meta crates now fs node_id (regular_file name n (truncate rs n))
  unfolding truncate_file
  truncate_file-eq now fs node_id n e = rw (truncate_file, e) refl

  module _ (laws : TreeLaws crates) (now : ℕ) (fs : FileSystem Replica) (node_id : NodeId) (n : ℕ)
      {name : String} {size : ℕ} {rs : List ChunkRef} (ready : IsReady crates now fs.tree)
      (f : IsFile crates fs node_id name size rs) (valid : IsValid fs.storage)
      (small : n < 2 ^ 64) where
    abbrev cut : List ChunkRef
    cut = truncate rs n

    cut-IsFile :
        (fs' : FileSystem Replica) (p : NodeId)
        → fs'.storage ≡ fs.storage
        → Stands crates fs' node_id p (regular_file name n cut)
        → IsFile crates fs' node_id name n cut
    cut-IsFile fs' p kept stands = record {
      meta = metadata-Stands crates fs' node_id p _ stands;
      covered =
          subst (λ s. IsCovered (held_in s) cut) (sym kept)
            (truncate-IsCovered (held_in fs.storage) rs n f.covered);
      allocatable = truncate-AreAllocatable rs n f.allocatable;
      total = omega (arith, total_size-truncate rs n);
      small = small;
    }

    -- The read that follows a truncation to fewer bytes than a vector can hold.
    cut_reads :
        (fs' : FileSystem Replica)
        → fs'.storage ≡ fs.storage
        → IsFile crates fs' node_id name n cut
        → n < 2 ^ 63
        → (fs'' : FileSystem Replica) × (read_file_all crates fs' node_id
            ≡ ok (take n (contents (held_in fs.storage) rs), fs''))
    cut_reads fs' kept f' less =
        let (fs'', read, _, _, _) =
          read_file_short crates fs' node_id 0 n f' (subst IsValid (sym kept) valid)
            (omega arith) in
        let size_now : min (0 + n) n - 0 ≡ n = omega arith in
        let whole : slice 0 (min (0 + n) n) (contents (held_in fs'.storage) cut)
            ≡ take n (contents (held_in fs.storage) rs) =
          ap (λ k. take k (contents (held_in fs'.storage) cut)) size_now
          ∙ ap (λ s. take n (contents (held_in s) cut)) kept
          ∙ ap (take n) (contents-truncate (held_in fs.storage) rs n f.covered)
          ∙ take-take n n (contents (held_in fs.storage) rs)
          ∙ ap (λ k. take k (contents (held_in fs.storage) rs))
              (let e : min n n ≡ n = omega arith in e) in
        (fs'', read_file_all-eq crates fs' node_id f'.meta ∙ read ∙ ap (λ b. ok (b, fs'')) whole)

    -- Truncating a regular file whose references are covered by the storage succeeds; then reading
    -- the whole file panics if the new size is 2 ^ 63 or more, and else returns its old contents cut off
    -- at the new size: all of them, and no zeros behind, if the new size is larger. Conditions: the
    -- storage is valid, the clock is ahead of the log and has room, the tree has no cycle, each
    -- reference is of less than 2 ^ 63 bytes, and their sizes add up to less than 2 ^ 64, as are the
    -- old and the new size.
    pub truncate_file-read_file_all :
        (m : TreeMutation Unit) × (fs' : FileSystem Replica) × (truncate_file crates now fs node_id
            n
          ≡ (ok m, fs'))
        × (metadata crates fs' node_id ≡ ok (regular_file name n (truncate rs n)))
        × (((2 ^ 63 ≤ n) × (read_file_all crates fs' node_id ≡ panic))
            ⊎ ((n < 2 ^ 63)
                × (fs'' : FileSystem Replica) × (read_file_all crates fs' node_id
                    ≡ ok (take n (contents (held_in fs.storage) rs), fs''))))
    truncate_file-read_file_all =
        let (p, stands) =
          Stands-metadata crates fs node_id _ (root-ne-file crates fs node_id f.meta) f.meta in
        let (m, fs', done, stands', kept, _) =
          update_meta-Stands crates laws now fs ready node_id p _ (regular_file name n cut)
            stands in
        let f' = cut-IsFile fs' p kept stands' in
        (
          m,
          fs',
          truncate_file-eq now fs node_id n f.meta ∙ done,
          f'.meta,
          elim (Bool-cases (ltb n (2 ^ 63))) [
            | inl short ↦
                let less : n < 2 ^ 63 = ground arith in
                let (fs'', read) = cut_reads fs' kept f' less in inr (less, fs'', read)
            | inr long ↦
                let many : 2 ^ 63 ≤ n = ground arith in
                inl (
                  many,
                  read_file_all-eq crates fs' node_id f'.meta
                      ∙ read_file_long crates fs' node_id 0 n f' (omega arith),
                )
          ],
        )
