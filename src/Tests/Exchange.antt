-- ===== src/Tests/Exchange.antt =====
-- A file whose chunk the gateway has, and the operations that a peer has not seen.
use mathlib.Core.List.{Memᴰ}
use mathlib.Core.List.Memᴰ
use edfs.Crates.{NodeOperation}
use edfs.Domain.{Bytes, ChunkHash, directory, regular_file}
use edfs.FileSystem.{FileSystem, metadata}
use edfs.FileSystem.Read.{missing_chunks, missing_chunk_hashes_for}
use edfs.Fuse.Actions.{FuseFileSystem, fetch_missing_chunks}
use edfs.Fuse.Fetched.{fetch_missing_chunks_complete}
use edfs.Fuse.Inode
use edfs.Fuse.OpenFile
use edfs.Prelude.Map
use edfs.Storage
use edfs.Storage.{ChunkStorage}
use edfs.Tests.Files.{fs, empty_a}
use edfs.Tests.Reads.{bytes, refs}
use edfs.Tests.Samples.{Nodes, sample_crates}
use edfs.Tree
use edfs.Tree.{NodeTree, operation_ids, operations_missing_from}
use edfs.Tree.Exchange.{Differ, AreDistinct, operations_missing_from-operation_ids}
use edfs.Prelude.{
  ◌≡◌, ◌↔◌, refl, sym, ◌∙◌, subst, inl, inr, true, Option, some, [], ◌∷◌, ok, arith, All,
}

abbrev fetch : ChunkHash → Option Bytes
fetch hash = some bytes

abbrev distant : FileSystem Nodes
distant = record {
  tree = record {
    peer_id = 1;
    tree = record { nodes = (7, (0, regular_file "b" 2 refs)) ∷ []; log = [] };
    clock = record { physical = 5; logical = 2 };
  };
  storage = Storage.new 10;
}

abbrev state : FuseFileSystem Nodes
state = record {
  filesystem = distant;
  inode_map = Inode.new 1;
  open_files = OpenFile.new;
  next_fh = 1;
  sent = [];
}

fetch_missing_chunks_complete_example :
    (r : ChunkStorage) × (fetch_missing_chunks sample_crates fetch 7 0 2 state
      ≡ (ok true, record state { filesystem = record distant { storage = r } }))
    × (missing_chunk_hashes_for sample_crates (record distant { storage = r }) 7 0 2 ≡ ok [])
unfolding Map.get metadata Tree.is_trashed Tree.parent_id Tree.metadata missing_chunks
    Storage.contains Storage.new
fetch_missing_chunks_complete_example =
    fetch_missing_chunks_complete sample_crates fetch state 7 0 2 refl ((bytes, refl, refl), tt)
      (omega arith)

-- A peer that has made an operation at the same value of its clock.
abbrev pub made_there : NodeOperation
made_there = record {
  actor_id = 2;
  counter = 3;
  parent_id = 0;
  metadata = directory "d";
  child_id = 8;
}

abbrev there : NodeTree Nodes
there = Tree.apply_operations sample_crates (λ o. 7) (Tree.new sample_crates 2) (made_there ∷ [])

operations_missing_from-operation_ids_example :
    Memᴰ empty_a (operations_missing_from sample_crates fs.tree (operation_ids sample_crates there))
    ↔ (Memᴰ empty_a (empty_a ∷ []) × All (Differ empty_a) (made_there ∷ []))
unfolding Tree.apply_operations Tree.new
operations_missing_from-operation_ids_example =
    operations_missing_from-operation_ids sample_crates fs.tree there empty_a

Differ-subst : (p q a b : NodeOperation) → a ≡ p → b ≡ q → Differ p q → Differ a b
Differ-subst p q a b f g d = subst (λ z. Differ z b) (sym f) (subst (Differ p) (sym g) d)

pub two-AreDistinct : (p q : NodeOperation) → Differ p q → Differ q p → AreDistinct (p ∷ q ∷ [])
two-AreDistinct p q d e a b (Memᴰ.head f) (Memᴰ.head g) = inl (f ∙ sym g)
two-AreDistinct p q d e a b (Memᴰ.head f) (Memᴰ.tail j) =
    inr (Differ-subst p q a b f (Memᴰ.eq_of_singleton j) d)
two-AreDistinct p q d e a b (Memᴰ.tail i) (Memᴰ.head g) =
    inr (Differ-subst q p a b (Memᴰ.eq_of_singleton i) g e)
two-AreDistinct p q d e a b (Memᴰ.tail i) (Memᴰ.tail j) =
    inl (Memᴰ.eq_of_singleton i ∙ sym (Memᴰ.eq_of_singleton j))
