-- ===== src/FileSystem/Nodes.antt =====
-- What a successful `metadata` says of the tree, and back.
use edfs.Crates.{Crates}
use edfs.Domain.{ChunkRef, NodeId, NodeMeta, regular_file, root, trash}
use edfs.Tree
use edfs.FileSystem.{FileSystem, metadata}
use edfs.Prelude.{ℕ, String, ◌≡◌, ◌≢◌, some, List, Option-cases, inl, inr, arith, ok}

module _ (crates : Crates) where
  open crates use {Replica, find}

  -- The node stands in the tree, outside the trash, and is not the root.
  abbrev pub Stands : FileSystem Replica → NodeId → NodeId → NodeMeta → Type 0
  Stands fs node_id p meta =
      (find fs.tree.tree node_id ≡ some (p, meta)) × (p ≢ trash) × (node_id ≢ root)

  pub metadata-Stands :
      (fs : FileSystem Replica) (node_id p : NodeId) (meta : NodeMeta)
      → Stands fs node_id p meta
      → metadata crates fs node_id ≡ ok meta
  unfolding metadata Tree.is_trashed Tree.parent_id Tree.metadata
  metadata-Stands fs node_id p meta (e, not_trash, not_root) = ground arith

  pub Stands-metadata :
      (fs : FileSystem Replica) (node_id : NodeId) (meta : NodeMeta)
      → node_id ≢ root
      → metadata crates fs node_id ≡ ok meta
      → (p : NodeId) × Stands fs node_id p meta
  unfolding metadata Tree.is_trashed Tree.parent_id Tree.metadata
  Stands-metadata fs node_id meta not_root e = elim (Option-cases (find fs.tree.tree node_id)) [
    | inl absent ↦ absurd (ground arith)
    | inr (node, found) ↦ (node.0, (ground arith, ground arith, not_root))
  ]

  pub root-ne-file :
      (fs : FileSystem Replica) (node_id : NodeId) {name : String} {size : ℕ} {rs : List ChunkRef}
      → metadata crates fs node_id ≡ ok (regular_file name size rs)
      → node_id ≢ root
  unfolding metadata
  root-ne-file fs node_id e same = ground arith
