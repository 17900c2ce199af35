-- ===== src/FileSystem/Mutate/Creation.antt =====
-- `create_node`, the body of `create_directory`, `create_file` and `create_symlink`: the new node is
-- what `child_id` finds.
use edfs.Crates.{Crates, TreeLaws, IsAbove}
use edfs.Domain.{NodeId, NodeMeta, name_of, root, trash}
use edfs.Tree
use edfs.Tree.{NodeTree, move_and_apply}
use edfs.Tree.Moves.{IsReady}
use edfs.FileSystem.{FileSystem, FileSystemEntry, not_found, metadata, child_id, find_named, ok_or}
use edfs.FileSystem.Nodes.{metadata-Stands}
use edfs.FileSystem.Mutate.{TreeMutation, create_node}
use edfs.Prelude.{
  ℕ, ◌≡◌, ◌≢◌, ◌⊎◌, refl, sym, ◌∙◌, inr, String, false, Option, none, some, [], ◌∷◌, mem, ok, err,
  arith,
}
use edfs.FileSystem.Mutate.Names.{
  Exists, named, find_named-none, child_id-eq, found, after, moved-child_id,
}

module _ (crates : Crates) where
  open crates use {Replica, find, new_v5}

  -- No child of the parent has the name.
  pub absent_name :
      (fs : FileSystem Replica) (p : NodeId) (name : String)
      → Exists crates fs p
      → child_id crates fs p name ≡ err not_found
      → (j : NodeId)
      → (mem j (crates.children fs.tree.tree p) ≡ false) ⊎ (named crates fs name j ≡ false)
  absent_name fs p name exists e j =
      find_named-none crates fs name (crates.children fs.tree.tree p) j (
        none-ok_or (find_named crates fs name (crates.children fs.tree.tree p))
          (sym (child_id-eq crates fs p name exists) ∙ e))
    where
      none-ok_or : (o : Option NodeId) → ok_or not_found o ≡ err not_found → o ≡ none
      none-ok_or none h = refl
      none-ok_or (some a) h = absurd (ground arith)

  create_node-eq :
      (now : ℕ) (fs : FileSystem Replica) (p : NodeId) (name : String) (meta : NodeMeta)
      → child_id crates fs p name ≡ err not_found
      → (m : TreeMutation FileSystemEntry) × (create_node crates now fs p name meta ≡ (
        ok m,
        record fs { tree = (move_and_apply crates now fs.tree (new_v5 p name) p meta).1 },
      ))
        × (m.result ≡ record { node_id = new_v5 p name; meta = meta })
  unfolding create_node Tree.create_node
  create_node-eq now fs p name meta e = (
    record {
      result = record { node_id = new_v5 p name; meta = meta };
      operations = (move_and_apply crates now fs.tree (new_v5 p name) p meta).0 ∷ [];
    },
    rw (create_node, e, Tree.create_node) refl,
    refl,
  )

  module _ (laws : TreeLaws crates) (now : ℕ) (fs : FileSystem Replica) (p : NodeId) (name : String)
      (meta : NodeMeta) (ready : IsReady crates now fs.tree) (exists : Exists crates fs p)
      (not_trash : p ≢ trash) (free : child_id crates fs p name ≡ err not_found)
      (e : name_of meta ≡ name) (not_self : new_v5 p name ≢ p) (not_root : new_v5 p name ≢ root)
      (not_above : ¬ IsAbove crates fs.tree.tree (new_v5 p name) p) where
    -- Creating a node under a name that its parent does not have succeeds; then `child_id` finds
    -- the new node under the name, `metadata` returns what was given, the storage is as it was, and
    -- so is every other node of the tree. Conditions: the parent is a reserved node but the trash,
    -- or stands in the tree; the clock is ahead of the log and has room, and the tree has no cycle;
    -- the new identifier is not the root nor the parent, and does not stand above the parent.
    pub create_node-child_id :
        (m : TreeMutation FileSystemEntry) × (fs' : FileSystem Replica) × (create_node crates now fs
            p name meta
          ≡ (ok m, fs'))
        × (m.result ≡ record { node_id = new_v5 p name; meta = meta })
        × (child_id crates fs' p name ≡ ok (new_v5 p name))
        × (metadata crates fs' (new_v5 p name) ≡ ok meta)
        × (fs'.storage ≡ fs.storage)
        × ((j : NodeId) → (j ≡ new_v5 p name) ⊎ (find fs'.tree.tree j ≡ find fs.tree.tree j))
    create_node-child_id =
        let id : NodeId = new_v5 p name in
        let at = found crates laws now fs ready id p meta not_self not_above in
        let (m, done, entry) = create_node-eq now fs p name meta free in
        let fs' : FileSystem Replica =
          after crates laws now fs ready id p meta not_self not_above in
        (
          m,
          fs',
          done,
          entry,
          moved-child_id crates laws now fs ready id p meta not_self not_above name exists e
              (λ j. inr (absent_name fs p name exists free j)),
          metadata-Stands crates fs' id p meta (ground (arith, at id), not_trash, not_root),
          refl,
          λ j. ground (arith, at j),
        )
