-- ===== src/FileSystem.antt =====
-- src/filesystem/mod.rs and error.rs: `FileSystem`, its errors and its queries. `Read` has the reads
-- of file contents, `Mutate` the operations that change the tree.
pub mod Read
pub mod Mutate
pub mod Chunks
pub mod Nodes
pub mod Reachable
use mathlib.Core.Option
use text.Mathlib.Text.{◌==◌ as str_eq}
use edfs.Crates.{Crates, NodeOperation}
use edfs.Domain.{
  Bytes, ChunkHash, ChunkRef, NodeId, NodeMeta, directory, regular_file, symlink, name_of, root,
  new_chunk,
}
use edfs.Storage
use edfs.Storage.{ChunkStorage, StorageError}
use edfs.Tree
use edfs.Tree.{NodeTree, NodeTreeError, NodeOperationId}
use edfs.Prelude.{
  ℕ, String, Bool, true, false, ◌==◌, Option, none, some, List, [], ◌∷◌, Result, ok, err, panic,
  if◌then◌else◌,
}

pub data FileSystemError : Type 0 where
  not_found reserved_node storage_full not_a_directory is_a_directory directory_not_empty
        already_exists :
      FileSystemError

-- `impl From<NodeTreeError> for FileSystemError`, and the same for `StorageError`.
abbrev pub from_tree_error : NodeTreeError → FileSystemError
from_tree_error NodeTreeError.not_found = not_found
from_tree_error NodeTreeError.reserved_node = reserved_node

abbrev pub from_storage_error : StorageError → FileSystemError
from_storage_error StorageError.storage_full = storage_full

abbrev pub or_tree_error {ℓ} : {A : Type ℓ} → Result NodeTreeError A → Result FileSystemError A
or_tree_error (ok a) = ok a
or_tree_error (err e) = err (from_tree_error e)
or_tree_error panic = panic

abbrev pub ok_or {ℓ} : {A : Type ℓ} → FileSystemError → Option A → Result FileSystemError A
ok_or e none = err e
ok_or e (some a) = ok a

-- The operator `?`, on results.
infixl 5 ◌>>=◌
abbrev pub ◌>>=◌ {ℓ κ} :
    {A : Type ℓ} {B : Type κ}
    → Result FileSystemError A
    → (A → Result FileSystemError B)
    → Result FileSystemError B
ok a >>= f = f a
err e >>= f = err e
panic >>= f = panic

pub record FileSystem (Replica : Type 0) : Type 0 where
  pub tree : NodeTree Replica
  pub storage : ChunkStorage

pub record FileSystemEntry : Type 0 where
  pub node_id : NodeId
  pub meta : NodeMeta

abbrev pub is_directory : NodeMeta → Bool
is_directory (directory name) = true
is_directory _ = false

module _ (crates : Crates) where
  open crates use {Replica}

  unfoldable pub metadata : FileSystem Replica → NodeId → Result FileSystemError NodeMeta
  metadata fs node_id =
      if node_id == root
      then ok (directory "")
      else if Tree.is_trashed crates fs.tree node_id
      then err not_found
      else ok_or not_found (Tree.metadata crates fs.tree node_id)

  unfoldable pub parent_id : FileSystem Replica → NodeId → NodeId
  parent_id fs node_id = Option.get_or (Tree.parent_id crates fs.tree node_id) root

  abbrev pub is_named : String → Option NodeMeta → Bool
  is_named name none = false
  is_named name (some meta) = str_eq (name_of meta) name

  -- `find` of `child_id`.
  unfoldable pub find_named : FileSystem Replica → String → List NodeId → Option NodeId
  find_named fs name [] = none
  find_named fs name (child ∷ children) =
      let rest = find_named fs name children in
      if is_named name (Tree.metadata crates fs.tree child) then some child else rest

  unfoldable pub child_id : FileSystem Replica → NodeId → String → Result FileSystemError NodeId
  child_id fs parent name = do
    children ← or_tree_error (Tree.children_of crates fs.tree parent)
    ok_or not_found (find_named fs name children)

  -- The loop of `list_directory`.
  unfoldable pub list_children :
      FileSystem Replica → List NodeId → List (NodeId × String × NodeMeta)
  list_children fs [] = []
  list_children fs (child ∷ children) =
      let rest = list_children fs children in
      elim (metadata fs child) [
        | ok meta ↦ (child, name_of meta, meta) ∷ rest
        | err _ ↦ rest
        | panic ↦ rest
      ]

  unfoldable pub list_directory :
      FileSystem Replica → NodeId → Result FileSystemError (List (NodeId × String × NodeMeta))
  list_directory fs node_id = do
    meta ← metadata fs node_id
    if is_directory meta
        then (do
          children ← or_tree_error (Tree.children_of crates fs.tree node_id)
          ok (list_children fs children))
        else err not_a_directory
