-- ===== src/Tests/Names.antt =====
-- A file is created in an empty tree; the file "a" is renamed and deleted.
use edfs.Crates.{IsAbove, parent, further}
use edfs.Domain.{NodeId, regular_file, trash}
use edfs.FileSystem.{FileSystem, FileSystemEntry, not_found, metadata, child_id, find_named}
use edfs.FileSystem.Mutate.{TreeMutation, create_node, delete_file}
use edfs.FileSystem.Mutate.Creation.{create_node-child_id}
use edfs.FileSystem.Mutate.Removal.{delete_file-gone}
use edfs.Prelude.Map
use edfs.Storage
use edfs.Tests.Files.{fs, tree, ready}
use edfs.Tests.Samples.{Nodes, sample_crates, sample_laws, children_in}
use edfs.Tree
use edfs.Tree.Moves.{IsReady}
use edfs.Prelude.{none, ◌≡◌, ◌⊎◌, refl, inl, false, mem, [], ok, err, arith}

abbrev empty_tree : Nodes
empty_tree = record { nodes = []; log = [] }

abbrev empty : FileSystem Nodes
empty = record {
  tree = record { peer_id = 1; tree = empty_tree; clock = record { physical = 5; logical = 2 } };
  storage = Storage.new 10;
}

nothing-IsAbove : (a b : NodeId) → ¬ IsAbove sample_crates empty_tree a b
unfolding Map.get
nothing-IsAbove a b (parent meta e) = ground arith
nothing-IsAbove a b (further meta above e) = ground arith

empty-IsReady : IsReady sample_crates 6 empty.tree
empty-IsReady = record {
  packable = omega arith;
  time = omega arith;
  room = omega arith;
  ahead = tt;
  acyclic = λ a. nothing-IsAbove a a;
}

free_b : child_id sample_crates empty 0 "b" ≡ err not_found
unfolding child_id find_named Tree.children_of
free_b = refl

create_node-child_id_example :
    (m : TreeMutation FileSystemEntry) × (fs' : FileSystem Nodes) × (create_node sample_crates 6
        empty 0 "b"
        (regular_file "b" 0 [])
      ≡ (ok m, fs'))
    × (m.result ≡ record { node_id = 7; meta = regular_file "b" 0 [] })
    × (child_id sample_crates fs' 0 "b" ≡ ok 7)
    × (metadata sample_crates fs' 7 ≡ ok (regular_file "b" 0 []))
    × (fs'.storage ≡ empty.storage)
    × ((j : NodeId) → (j ≡ 7) ⊎ (Map.get j fs'.tree.tree.nodes ≡ Map.get j []))
create_node-child_id_example =
    create_node-child_id sample_crates sample_laws 6 empty 0 "b" (regular_file "b" 0 [])
      empty-IsReady (inl refl) (omega arith) free_b refl (omega arith) (omega arith)
      (nothing-IsAbove 7 0)

taken_a : child_id sample_crates fs 0 "a" ≡ ok 7
unfolding child_id find_named Tree.children_of Tree.metadata Map.get
taken_a = refl

present_a : metadata sample_crates fs 7 ≡ ok (regular_file "a" 0 [])
unfolding metadata Tree.is_trashed Tree.parent_id Tree.metadata Map.get
present_a = refl

no_trash : Map.get trash tree.nodes ≡ none
unfolding Map.get
no_trash = refl

delete_file-gone_example :
    (m : TreeMutation Unit) × (fs' : FileSystem Nodes) × (delete_file sample_crates 6 fs 0 "a"
      ≡ (ok m, fs'))
    × (metadata sample_crates fs' 7 ≡ err not_found)
    × (mem 7 (children_in fs'.tree.tree.nodes 0 fs'.tree.tree.nodes) ≡ false)
    × (fs'.storage ≡ fs.storage)
    × ((j : NodeId) → (j ≡ 7) ⊎ (Map.get j fs'.tree.tree.nodes ≡ Map.get j tree.nodes))
delete_file-gone_example =
    delete_file-gone sample_crates sample_laws 6 fs 7 0 "a" (regular_file "a" 0 []) ready taken_a
      present_a (omega arith) refl no_trash (omega arith)
