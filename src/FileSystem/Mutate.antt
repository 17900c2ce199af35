-- ===== src/FileSystem/Mutate.antt =====
-- src/filesystem/mod.rs and mutation.rs: the operations that change the tree. Each returns its
-- result beside the new file system, since an operation that fails late has pinned chunks by then.
pub mod Write
pub mod Update
pub mod RoundTrip
pub mod Names
pub mod Creation
pub mod Removal
pub mod Truncation
use text.Mathlib.Text.{◌==◌ as str_eq}
use edfs.Crates.{Crates, NodeOperation}
use edfs.Domain.{
  Bytes, Chunk, ChunkRef, NodeId, NodeMeta, directory, regular_file, symlink, reference, new_chunk,
}
use edfs.Chunking.{split, truncate}
use edfs.Storage
use edfs.Storage.{StorageError, ChunkStorage, try_pin}
use edfs.Tree
use edfs.Tree.{NodeTree, NodeTreeError}
use edfs.FileSystem.{
  FileSystem, FileSystemError, FileSystemEntry, not_found, not_a_directory, is_a_directory,
  directory_not_empty, already_exists, from_tree_error, from_storage_error, or_tree_error, ok_or,
  is_directory, metadata, child_id,
}
use edfs.FileSystem.Read.{as_file}
use edfs.Prelude.{
  ℕ, String, Bool, true, false, not, ◌&&◌, ◌==◌, Option, none, some, List, [], ◌∷◌, map, length,
  Result, ok, err, panic, if◌then◌else◌,
}

-- `TreeMutation<T>`: a result and the operations to broadcast.
pub record TreeMutation {ℓ} (A : Type ℓ) : Type ℓ where
  pub result : A
  pub operations : List NodeOperation

abbrev pub is_ok {ℓ κ} : {E : Type ℓ} {A : Type κ} → Result E A → Bool
is_ok (ok a) = true
is_ok (err e) = false
is_ok panic = false

abbrev pub is_empty : List NodeId → Bool
is_empty [] = true
is_empty (x ∷ xs) = false

-- The metadata under another name, in `rename`.
abbrev pub with_name : String → NodeMeta → NodeMeta
with_name new_name (directory name) = directory new_name
with_name new_name (regular_file name size chunk_refs) = regular_file new_name size chunk_refs
with_name new_name (symlink name target) = symlink new_name target

-- The test of `rename` on `self.child_id(new_parent_id, new_name)`.
abbrev pub is_other : NodeId → Result FileSystemError NodeId → Bool
is_other node_id (ok existing) = not (existing == node_id)
is_other node_id (err e) = false
is_other node_id panic = false

module _ (crates : Crates) where
  open crates use {Replica, digest, cutter, new_v5}

  abbrev pub Step : Type 0 → Type 0
  Step A = Result FileSystemError A × FileSystem Replica

  -- The operator `?` in a method that has changed the file system to `fs`.
  abbrev pub check {ℓ} :
      {A : Type ℓ} {B : Type 0}
      → FileSystem Replica
      → Result FileSystemError A
      → (A → Step B)
      → Step B
  check fs (ok a) next = next a
  check fs (err e) next = (err e, fs)
  check fs panic next = (panic, fs)

  -- `vec![self.tree.move_node(..)?]`, and the same of `delete_node`.
  abbrev pub moved :
      FileSystem Replica
      → Result NodeTreeError NodeOperation
      → NodeTree Replica
      → Step (TreeMutation Unit)
  moved fs (ok operation) tree =
      (ok (record { result = tt; operations = operation ∷ [] }), record fs { tree = tree })
  moved fs (err e) tree = (err (from_tree_error e), record fs { tree = tree })
  moved fs panic tree = (panic, record fs { tree = tree })

  unfoldable pub create_node :
      ℕ → FileSystem Replica → NodeId → String → NodeMeta → Step (TreeMutation FileSystemEntry)
  create_node now fs parent name meta =
      if is_ok (child_id crates fs parent name)
      then (err already_exists, fs)
      else let node_id : NodeId = new_v5 parent name in
        let (operation, tree) = Tree.create_node crates now fs.tree parent node_id meta in
        (
          ok (record {
            result = record { node_id = node_id; meta = meta };
            operations = operation ∷ [];
          }),
          record fs { tree = tree },
        )

  unfoldable pub create_directory :
      ℕ → FileSystem Replica → NodeId → String → Step (TreeMutation FileSystemEntry)
  create_directory now fs parent name = create_node now fs parent name (directory name)

  unfoldable pub create_file :
      ℕ → FileSystem Replica → NodeId → String → Step (TreeMutation FileSystemEntry)
  create_file now fs parent name = create_node now fs parent name (regular_file name 0 [])

  unfoldable pub create_symlink :
      ℕ → FileSystem Replica → NodeId → String → String → Step (TreeMutation FileSystemEntry)
  create_symlink now fs parent name target = create_node now fs parent name (symlink name target)

  unfoldable pub delete_directory :
      ℕ → FileSystem Replica → NodeId → String → Step (TreeMutation Unit)
  delete_directory now fs parent name = check fs (child_id crates fs parent name) λ node_id.
      check fs (metadata crates fs node_id) λ meta.
        if not (is_directory meta)
        then (err not_a_directory, fs)
        else check fs (or_tree_error (Tree.children_of crates fs.tree node_id)) λ children.
          if not (is_empty children)
          then (err directory_not_empty, fs)
          else let (r, tree) = Tree.delete_node crates now fs.tree node_id in moved fs r tree

  unfoldable pub delete_file : ℕ → FileSystem Replica → NodeId → String → Step (TreeMutation Unit)
  delete_file now fs parent name = check fs (child_id crates fs parent name) λ node_id.
      check fs (metadata crates fs node_id) λ meta.
        if is_directory meta
        then (err is_a_directory, fs)
        else let (r, tree) = Tree.delete_node crates now fs.tree node_id in moved fs r tree

  -- The end of `write_file` and of `truncate_file`: the metadata is written in place.
  unfoldable pub update_meta : ℕ → FileSystem Replica → NodeId → NodeMeta → Step (TreeMutation Unit)
  update_meta now fs node_id meta =
      check fs (ok_or not_found (Tree.parent_id crates fs.tree node_id)) λ parent.
        let (r, tree) = Tree.move_node crates now fs.tree node_id parent meta in moved fs r tree

  -- `write_file` once the chunks are cut.
  unfoldable pub write_chunks :
      ℕ
      → FileSystem Replica
      → NodeId
      → String
      → ℕ
      → List Chunk
      → Result StorageError ChunkStorage
      → Step (TreeMutation Unit)
  write_chunks now fs node_id name size chunks (ok storage) =
      update_meta now (record fs { storage = storage }) node_id
        (regular_file name size (map reference chunks))
  write_chunks now fs node_id name size chunks (err e) = (err (from_storage_error e), fs)
  write_chunks now fs node_id name size chunks panic = (panic, fs)

  unfoldable pub write_file : ℕ → FileSystem Replica → NodeId → Bytes → Step (TreeMutation Unit)
  write_file now fs node_id bytes = check fs (metadata crates fs node_id) λ meta.
      check fs (as_file meta) λ file. elim (split digest cutter bytes) [
        | none ↦ (panic, fs)
        | some chunks ↦
            write_chunks now fs node_id file.0 (length bytes) chunks (try_pin fs.storage chunks)
      ]

  unfoldable pub truncate_file : ℕ → FileSystem Replica → NodeId → ℕ → Step (TreeMutation Unit)
  truncate_file now fs node_id size = check fs (metadata crates fs node_id) λ meta.
      check fs (as_file meta)
        λ file. update_meta now fs node_id (regular_file file.0 size (truncate file.2 size))

  unfoldable pub rename :
      ℕ → FileSystem Replica → NodeId → String → NodeId → String → Step (TreeMutation Unit)
  rename now fs parent name new_parent new_name =
      check fs (child_id crates fs parent name) λ node_id.
        if is_other node_id (child_id crates fs new_parent new_name)
        then (err already_exists, fs)
        else if new_parent == parent && str_eq new_name name
        then (ok (record { result = tt; operations = [] }), fs)
        else check fs (metadata crates fs node_id) λ meta.
          let (r, tree) =
            Tree.move_node crates now fs.tree node_id new_parent (with_name new_name meta) in
          moved fs r tree
