-- ===== src/FileSystem/Mutate/Update.antt =====
-- `update_meta`, the end of `write_file` and of `truncate_file`: the node stays where it is.
use edfs.Crates.{Crates, TreeLaws}
use edfs.Domain.{NodeId, NodeMeta}
use edfs.Tree
use edfs.Tree.{NodeTree}
use edfs.Tree.Moves.{parent_id-eq-some, move_node-eq-ok, IsReady, find-move, not-IsAbove_parent}
use edfs.FileSystem.{FileSystem}
use edfs.FileSystem.Nodes.{Stands}
use edfs.FileSystem.Mutate.{TreeMutation, update_meta}
use edfs.Prelude.{ℕ, ◌≡◌, ◌⊎◌, refl, [], ◌∷◌, ok, arith}

module _ (crates : Crates) (laws : TreeLaws crates) (now : ℕ) (fs : FileSystem (crates.Replica))
    (ready : IsReady crates now fs.tree) (node_id p : NodeId) (old meta : NodeMeta)
    (stands : Stands crates fs node_id p old) where
  open crates use {Replica, find}

  abbrev moved_tree : NodeTree Replica
  moved_tree = (Tree.move_and_apply crates now fs.tree node_id p meta).1

  update_meta-eq :
      (m : TreeMutation Unit) × (update_meta crates now fs node_id meta
        ≡ (ok m, record fs { tree = moved_tree }))
  unfolding update_meta
  update_meta-eq = (
    record {
      result = tt;
      operations = (Tree.move_and_apply crates now fs.tree node_id p meta).0 ∷ [];
    },
    rw (
      update_meta,
      parent_id-eq-some crates fs.tree node_id p old stands.0,
      move_node-eq-ok crates fs.tree node_id p old stands.0,
    ),
  )

  -- The node has the new metadata, every other node and the storage stay.
  pub update_meta-Stands :
      (m : TreeMutation Unit) × (fs' : FileSystem Replica) × (update_meta crates now fs node_id meta
        ≡ (ok m, fs'))
      × Stands crates fs' node_id p meta
      × (fs'.storage ≡ fs.storage)
      × ((j : NodeId) → (j ≡ node_id) ⊎ (find fs'.tree.tree j ≡ find fs.tree.tree j))
  update_meta-Stands =
      let (not_self, not_above) =
        not-IsAbove_parent crates laws now fs.tree ready node_id p old stands.0 in
      let found = λ (j : NodeId).
        find-move crates laws now fs.tree ready node_id p meta j not_self not_above in
      let (m, done) = update_meta-eq in
      (
        m,
        record fs { tree = moved_tree },
        done,
        (ground (arith, found node_id), stands.1, stands.2),
        refl,
        λ j. ground (arith, found j),
      )
