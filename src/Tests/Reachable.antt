-- ===== src/Tests/Reachable.antt =====
-- A file with one chunk in the root directory, and the hashes that a search finds.
use edfs.Domain.{ChunkHash, regular_file}
use edfs.FileSystem.{FileSystem}
use edfs.FileSystem.Reachable.{
  reachable_chunk_hashes, search_loop, visit_all, visit_child, note_child,
}
use edfs.FileSystem.Reachable.Paths.{Reaches}
use edfs.FileSystem.Reachable.Correct.{reachable_chunk_hashes_correct}
use edfs.FileSystem.Reachable.Ends.{IsFinite, reachable_chunk_hashes_returns}
use edfs.Prelude.Map
use edfs.Storage
use edfs.Tests.Reads.{refs}
use edfs.Tests.Samples.{Nodes, sample_crates, sample_laws}
use edfs.Tree
use edfs.Prelude.{◌≡◌, refl, ◌↔◌, true, some, List, [], ◌∷◌, mem, arith, set_extend}

abbrev pub fs : FileSystem Nodes
fs = record {
  tree = record {
    peer_id = 1;
    tree = record { nodes = (7, (0, regular_file "b" 2 refs)) ∷ []; log = [] };
    clock = record { physical = 5; logical = 2 };
  };
  storage = Storage.new 10;
}

finite : IsFinite sample_crates fs (7 ∷ [])
unfolding Map.get
finite j = ground arith

found : reachable_chunk_hashes sample_crates 2 fs ≡ some (773 ∷ [])
unfolding reachable_chunk_hashes search_loop visit_all visit_child note_child Tree.metadata
    Tree.children_of Map.get set_extend
found = refl

reachable_chunk_hashes_returns_example :
    (hashes : List ChunkHash) × (reachable_chunk_hashes sample_crates 2 fs ≡ some hashes)
reachable_chunk_hashes_returns_example =
    reachable_chunk_hashes_returns sample_crates sample_laws fs (7 ∷ []) finite 2 (omega arith)

reachable_chunk_hashes_correct_example : (mem 773 (773 ∷ []) ≡ true) ↔ Reaches sample_crates fs 773
reachable_chunk_hashes_correct_example =
    reachable_chunk_hashes_correct sample_crates fs 2 (773 ∷ []) 773 found
