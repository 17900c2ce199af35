-- ===== src/Tests/Reads.antt =====
-- A file "b" of one pinned chunk: reads of it, and truncations of its references.
use edfs.Chunking.{split, truncate}
use edfs.Chunking.Contents.{contents, contents-truncate, total_size, total_size-truncate}
use edfs.Chunking.Pieces.{joined, AreAddressed, split-joined}
use edfs.Domain.{Bytes, Chunk, ChunkRef, regular_file}
use edfs.FileSystem.{FileSystem, metadata}
use edfs.Crates.{IsAbove, parent, further}
use edfs.Domain.{NodeId}
use edfs.FileSystem.Mutate.{TreeMutation, truncate_file}
use edfs.FileSystem.Mutate.Truncation.{truncate_file-read_file_all}
use edfs.FileSystem.Read.{read_file_all}
use edfs.Tests.Samples.{sample_laws}
use edfs.Tree.Moves.{IsReady}
use edfs.FileSystem.Read.{missing_chunks, missing_chunk_hashes_for, read_file}
use edfs.FileSystem.Read.File.{IsFile, read_file-eq-slice}
use edfs.FileSystem.Read.Missing.{read_file_complete}
use edfs.FileSystem.Read.Range.{held_in}
use edfs.Prelude.Map
use edfs.Storage
use edfs.Storage.Accounts.{IsValid}
use edfs.Tests.Samples.{Nodes, sample_crates, sample_digest, one_range}
use edfs.Tests.Storage.{one_pinned, one_pinned-IsSound}
use edfs.Tree
use edfs.Prelude.{
  ◌+◌, ◌-◌, ◌^◌, ◌≤◌, ◌<◌, ◌⊎◌, ◌≡◌, panic, refl, inr, min, some, List, [], ◌∷◌, ok, arith, slice,
  take,
}

abbrev pub bytes : Bytes
bytes = 1 ∷ 2 ∷ []

abbrev pub refs : List ChunkRef
refs = record { hash = sample_digest bytes; size = 2 } ∷ []

abbrev fs : FileSystem Nodes
fs = record {
  tree = record {
    peer_id = 1;
    tree = record { nodes = (7, (0, regular_file "b" 2 refs)) ∷ []; log = [] };
    clock = record { physical = 5; logical = 2 };
  };
  storage = one_pinned;
}

is_file : IsFile sample_crates fs 7 "b" 2 refs
unfolding Map.get metadata Tree.is_trashed Tree.parent_id Tree.metadata
is_file = record {
  meta = refl;
  covered = (omega arith, tt);
  allocatable = (omega arith, tt);
  total = omega arith;
  small = omega arith;
}

read_file-eq-slice_example :
    ((2 ^ 63 ≤ min (1 + 5) 2 - 1) × (read_file sample_crates fs 7 1 5 ≡ panic))
    ⊎ ((min (1 + 5) 2 - 1 < 2 ^ 63)
        × (fs' : FileSystem Nodes) × (read_file sample_crates fs 7 1 5
            ≡ ok (slice 1 (min (1 + 5) 2) (contents (held_in fs.storage) refs), fs'))
        × (fs'.tree ≡ fs.tree)
        × (fs'.storage.chunks ≡ fs.storage.chunks)
        × IsValid fs'.storage)
read_file-eq-slice_example =
    read_file-eq-slice sample_crates fs 7 1 5 is_file one_pinned-IsSound.valid

all_held : missing_chunk_hashes_for sample_crates fs 7 1 5 ≡ ok []
unfolding Map.get metadata Tree.is_trashed Tree.parent_id Tree.metadata missing_chunk_hashes_for
    missing_chunks Storage.contains
all_held = refl

read_file_complete_example :
    (fs' : FileSystem Nodes) × (read_file sample_crates fs 7 1 5
      ≡ ok (slice 1 (min (1 + 5) 2) (contents (held_in fs.storage) refs), fs'))
read_file_complete_example =
    read_file_complete sample_crates fs 7 1 5 (held_in fs.storage) is_file one_pinned-IsSound.valid
      (λ h. inr refl) is_file.covered (omega arith) all_held

contents-truncate_example :
    contents (held_in fs.storage) (truncate refs 1) ≡ take 1 (contents (held_in fs.storage) refs)
contents-truncate_example = contents-truncate (held_in fs.storage) refs 1 is_file.covered

total_size-truncate_example : total_size (truncate refs 1) ≡ min 1 (total_size refs)
total_size-truncate_example = total_size-truncate refs 1

split-joined_example :
    (cs : List Chunk) × (split sample_digest
        (λ min_size avg_size max_size content. one_range content)
        bytes
      ≡ some cs)
    × (joined cs ≡ bytes)
    × AreAddressed sample_digest cs
split-joined_example =
    split-joined sample_digest (λ min_size avg_size max_size content. one_range content) bytes
      (refl, refl)

is_b : (a b : NodeId) → IsAbove sample_crates fs.tree.tree a b → (b ≡ 7) × (a ≡ 0)
unfolding Map.get
is_b a b (parent meta e) = ground arith
is_b a b (further {b = m} meta above e) = ground (arith, is_b a m above)

ready : IsReady sample_crates 6 fs.tree
ready = record {
  packable = omega arith;
  time = omega arith;
  room = omega arith;
  ahead = tt;
  acyclic = λ a above. omega (arith, is_b a a above);
}

truncate_file-read_file_all_example :
    (m : TreeMutation Unit) × (fs' : FileSystem Nodes) × (truncate_file sample_crates 6 fs 7 1
      ≡ (ok m, fs'))
    × (metadata sample_crates fs' 7 ≡ ok (regular_file "b" 1 (truncate refs 1)))
    × (((2 ^ 63 ≤ 1) × (read_file_all sample_crates fs' 7 ≡ panic))
        ⊎ ((1 < 2 ^ 63)
            × (fs'' : FileSystem Nodes) × (read_file_all sample_crates fs' 7
                ≡ ok (take 1 (contents (held_in fs.storage) refs), fs''))))
truncate_file-read_file_all_example =
    truncate_file-read_file_all sample_crates sample_laws 6 fs 7 1 ready is_file
      one_pinned-IsSound.valid (omega arith)
