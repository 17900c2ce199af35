-- ===== src/FileSystem/Mutate/Removal.antt =====
-- `rename` and `delete_file`, where they succeed.
use text.Mathlib.Text.{◌==◌ as str_eq}
use edfs.Crates.{Crates, TreeLaws, IsAbove}
use edfs.Domain.{NodeId, NodeMeta, root, trash, is_reserved}
use edfs.Tree
use edfs.Tree.{NodeTree, move_and_apply}
use edfs.Tree.Moves.{IsReady, metadata-eq-some}
use edfs.FileSystem.{FileSystem, not_found, metadata, child_id}
use edfs.FileSystem.Mutate.{TreeMutation}
use edfs.Prelude.{
  ℕ, ◌≡◌, ◌≢◌, ◌⊎◌, refl, String, false, ◌==◌, none, some, [], ◌∷◌, mem, ok, err, arith,
}
use edfs.FileSystem.Mutate.Names.{Exists, found, after}
use edfs.FileSystem.{is_directory}
use edfs.FileSystem.Mutate.{delete_file, with_name}
use edfs.FileSystem.Nodes.{Stands-metadata}
use edfs.Crates.{parent, further}

module _ (crates : Crates) where
  open crates use {Replica, find}

  module _ (laws : TreeLaws crates) (now : ℕ) (fs : FileSystem Replica) (id p : NodeId)
      (name : String) (meta : NodeMeta) (ready : IsReady crates now fs.tree)
      (taken : child_id crates fs p name ≡ ok id) (present : metadata crates fs id ≡ ok meta)
      (not_root : id ≢ root) where
    module _ (q : NodeId) (new_name : String) (exists : Exists crates fs q) (not_trash : q ≢ trash)
        (free : child_id crates fs q new_name ≡ err not_found) (not_self : id ≢ q)
        (not_above : ¬ IsAbove crates fs.tree.tree id q) where
      abbrev renamed : FileSystem Replica
      renamed = after crates laws now fs ready id q (with_name new_name meta) not_self not_above

    module _ (file : is_directory meta ≡ false) (no_trash : find fs.tree.tree trash ≡ none) where
      not-IsAbove-trash : ¬ IsAbove crates fs.tree.tree id trash
      not-IsAbove-trash (parent meta' e) = ground arith
      not-IsAbove-trash (further meta' above e) = ground arith

      is_held : (q : NodeId) × (find fs.tree.tree id ≡ some (q, meta))
      is_held =
          let (q, stands) = Stands-metadata crates fs id meta not_root present in (q, stands.0)

      not_trash_itself : id ≢ trash
      not_trash_itself same = let (q, held) = is_held in ground (arith, held)

      abbrev trashed : FileSystem Replica
      trashed = after crates laws now fs ready id trash meta not_trash_itself not-IsAbove-trash

      delete_file-eq :
          (m : TreeMutation Unit) × (delete_file crates now fs p name ≡ (ok m, trashed))
      unfolding delete_file Tree.delete_node
      delete_file-eq =
          let (q, held) = is_held in
          let open_node : is_reserved id ≡ false = ground (arith, not_trash_itself) in
          let operation = (move_and_apply crates now fs.tree id trash meta).0 in
          (
            record { result = tt; operations = operation ∷ [] },
            rw
                (
                  delete_file,
                  taken,
                  present,
                  file,
                  Tree.delete_node,
                  open_node,
                  metadata-eq-some crates fs.tree id q meta held,
                )
                refl,
          )

      -- Deleting a file succeeds; then `metadata` does not find the node, it is no child of the
      -- parent, the storage is as it was, and so is every other node of the tree. Conditions: the
      -- node is the child of that name, is no directory and not the root, the parent is not the
      -- trash and the trash does not stand in the tree itself; the clock is ahead of the log and
      -- has room, and the tree has no cycle.
      pub delete_file-gone :
          p ≢ trash
          → (m : TreeMutation Unit) × (fs' : FileSystem Replica) × (delete_file crates now fs p name
              ≡ (ok m, fs'))
            × (metadata crates fs' id ≡ err not_found)
            × (mem id (crates.children fs'.tree.tree p) ≡ false)
            × (fs'.storage ≡ fs.storage)
            × ((j : NodeId) → (j ≡ id) ⊎ (find fs'.tree.tree j ≡ find fs.tree.tree j))
      unfolding metadata Tree.is_trashed Tree.parent_id
      delete_file-gone not_trash =
          let at =
            found crates laws now fs ready id trash meta not_trash_itself not-IsAbove-trash in
          let (m, done) = delete_file-eq in
          (
            m,
            trashed,
            done,
            ground (arith, at id),
            ground (arith, at id, laws.mem-children trashed.tree.tree p id),
            refl,
            λ j. ground (arith, at j),
          )
