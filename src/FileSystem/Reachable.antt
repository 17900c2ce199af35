-- ===== src/FileSystem/Reachable.antt =====
-- src/filesystem/mod.rs: `reachable_chunk_hashes`, a breadth-first search from the root. A set of
-- hashes or of nodes is a list without repetitions. The loop takes fuel.
pub mod Ends
pub mod Paths
pub mod Correct
use edfs.Crates.{Crates}
use edfs.Domain.{
  ChunkHash, ChunkRef, NodeId, NodeMeta, directory, regular_file, symlink, root, trash,
}
use edfs.Tree
use edfs.Tree.{NodeTreeError}
use edfs.FileSystem.{FileSystem}
use edfs.Prelude.{
  ℕ, zero, suc, ◌==◌, ◌||◌, Bool, Option, none, some, List, [], ◌∷◌, ◌++◌, map, foldl, mem, Result,
  ok, err, panic, if◌then◌else◌, set_insert, set_extend,
}

-- The locals of the search.
pub record Search : Type 0 where
  pub reachable : List ChunkHash
  pub visited : List NodeId
  pub queue : List NodeId

-- The `match` on the metadata of a child.
unfoldable pub note_child : Search → NodeId → Option NodeMeta → Search
note_child s child (some (regular_file name size chunk_refs)) = record s {
  reachable = set_extend s.reachable (map (λ r. r.hash) chunk_refs);
}
note_child s child (some (directory name)) = record s { queue = s.queue ++ child ∷ [] }
note_child s child (some (symlink name target)) = s
note_child s child none = s

module _ (crates : Crates) where
  open crates use {Replica}

  -- The body of the inner loop.
  unfoldable pub visit_child : FileSystem Replica → Search → NodeId → Search
  visit_child fs s child =
      if child == trash || mem child s.visited
      then s
      else note_child (record s { visited = set_insert child s.visited }) child
          (Tree.metadata crates fs.tree child)

  -- The children that a round walks through: none after `continue`.
  abbrev pub children_or_none : Result NodeTreeError (List NodeId) → List NodeId
  children_or_none (ok children) = children
  children_or_none (err e) = []
  children_or_none panic = []

  unfoldable pub visit_all : FileSystem Replica → Search → List NodeId → Search
  visit_all fs s [] = s
  visit_all fs s (child ∷ children) = visit_all fs (visit_child fs s child) children

  -- The outer loop; `none` where the fuel runs out.
  unfoldable pub search_loop : ℕ → FileSystem Replica → Search → Option Search
  search_loop zero fs s = elim s.queue [ [] ↦ some s | node_id ∷ queue ↦ none ]
  search_loop (suc fuel) fs s = elim s.queue [
    | [] ↦ some s
    | node_id ∷ queue ↦ search_loop fuel fs (
        visit_all fs (record s { queue = queue })
          (children_or_none (Tree.children_of crates fs.tree node_id)))
  ]

  abbrev pub start_search : Search
  start_search = record { reachable = []; visited = set_insert root []; queue = root ∷ [] }

  unfoldable pub reachable_chunk_hashes : ℕ → FileSystem Replica → Option (List ChunkHash)
  reachable_chunk_hashes fuel fs = elim (search_loop fuel fs start_search) [
    | none ↦ none
    | some s ↦ some s.reachable
  ]
