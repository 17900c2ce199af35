-- ===== src/Tests/Files.antt =====
-- A file system with one empty file, "a", in the root directory.
use edfs.Chunking.{range, chunks_at, split}
use edfs.Crates.{NodeOperation, IsAbove, parent, further}
use edfs.Domain.{Bytes, ChunkHash, Chunk, NodeId, regular_file, new_chunk}
use edfs.FileSystem.{FileSystem, FileSystemError.storage_full, metadata}
use edfs.FileSystem.Read.{read_file_all}
use edfs.FileSystem.Mutate.{TreeMutation, write_file}
use edfs.FileSystem.Mutate.Write.{NoCollision}
use edfs.FileSystem.Mutate.RoundTrip.{write_file-read_file_all}
use edfs.Fuse.Actions.{FuseFileSystem}
use edfs.Fuse.Errno.{enospc}
use edfs.Fuse.Inode.{get_node_id}
use edfs.Fuse.OpenFile.{opened}
use edfs.Fuse.Saved.{write-release}
use edfs.Fuse.Transfer.{write, release}
use edfs.Hlc.{pack}
use edfs.Prelude.Map
use edfs.Storage
use edfs.Storage.History.{new-IsSound}
use edfs.Tests.Samples.{Nodes, sample_crates, sample_laws, sample_digest}
use edfs.Tree
use edfs.Tree.Moves.{IsReady}
use edfs.Prelude.{◌≡◌, ◌⊎◌, refl, ok, err, arith, List, [], ◌∷◌, inr, Option, some, none, ◌%◌, ◌^◌}

abbrev pub empty_a : NodeOperation
empty_a = record {
  actor_id = 1;
  counter = 3;
  parent_id = 0;
  metadata = regular_file "a" 0 [];
  child_id = 7;
}

abbrev pub tree : Nodes
tree = record { nodes = (7, (0, regular_file "a" 0 [])) ∷ []; log = empty_a ∷ [] }

abbrev pub fs : FileSystem Nodes
fs = record {
  tree = record { peer_id = 1; tree = tree; clock = record { physical = 5; logical = 2 } };
  storage = Storage.new 10;
}

pub is_a : (a b : NodeId) → IsAbove sample_crates tree a b → (b ≡ 7) × (a ≡ 0)
unfolding Map.get
is_a a b (parent meta e) = ground arith
is_a a b (further {b = m} meta above e) = ground (arith, is_a a m above)

pub ready : IsReady sample_crates 6 fs.tree
unfolding pack
ready = record {
  packable = omega arith;
  time = omega arith;
  room = omega arith;
  ahead = omega arith;
  acyclic = λ a above. omega (arith, is_a a a above);
}

abbrev hello : Bytes
hello = 104 ∷ 105 ∷ []

abbrev pieces : List Chunk
pieces = new_chunk sample_digest hello ∷ []

apart : NoCollision sample_digest fs.storage pieces
unfolding Storage.new Map.get
apart = (((λ h. tt), (inr refl, tt)), tt)

write_file-read_file_all_example :
    (write_file sample_crates 6 fs 7 hello ≡ (err storage_full, fs))
    ⊎ ((m : TreeMutation Unit) × (fs' : FileSystem Nodes) × (write_file sample_crates 6 fs 7 hello
          ≡ (ok m, fs'))
        × (fs'' : FileSystem Nodes) × (read_file_all sample_crates fs' 7 ≡ ok (hello, fs'')))
unfolding Map.get metadata Tree.is_trashed Tree.parent_id Tree.metadata split chunks_at range
write_file-read_file_all_example =
    write_file-read_file_all sample_crates sample_laws 6 fs 7 hello ready
      (new-IsSound sample_digest 10) refl (refl, refl) refl apart (omega arith)

-- The file, opened under the handle 3 and the inode number 2.
abbrev opened_a : FuseFileSystem Nodes
opened_a = record {
  filesystem = fs;
  inode_map = record { ino_to_id = (2, 7) ∷ []; id_to_ino = (7, 2) ∷ []; next_ino = 3 };
  open_files = record { open_files = (3, opened (regular_file "a" 0 []) (some [])) ∷ [] };
  next_fh = 4;
  sent = [];
}

abbrev no_peers : ChunkHash → Option Bytes
no_peers hash = none

write-release_example :
    (s' : FuseFileSystem Nodes) × (write sample_crates no_peers 2 3 0 hello opened_a
      ≡ (ok (2 % 2 ^ 32), s'))
    × (((s'' : FuseFileSystem Nodes) × (release sample_crates no_peers 6 2 3 s' ≡ (err enospc, s''))
          × (s''.filesystem ≡ fs))
        ⊎ ((s'' : FuseFileSystem Nodes) × (release sample_crates no_peers 6 2 3 s' ≡ (ok tt, s''))
            × (fs' : FileSystem Nodes) × (read_file_all sample_crates s''.filesystem 7
                ≡ ok (hello, fs'))))
unfolding Map.get metadata Tree.is_trashed Tree.parent_id Tree.metadata split chunks_at range
    get_node_id
write-release_example =
    write-release sample_crates no_peers sample_laws 6 opened_a 2 3 7 0 104 (105 ∷ []) []
      (opened (regular_file "a" 0 []) (some [])) refl refl refl (omega arith) (omega arith) ready
      (new-IsSound sample_digest 10) refl (refl, refl) refl apart
