-- ===== src/Fuse/Inode.antt =====
-- src/fuse/inode.rs: `INodeMap`, the inode numbers of the nodes. The root's number is a constant of
-- the crate `async_fuser`, an argument here.
pub mod Bijection
use edfs.Domain.{NodeId, root}
use edfs.Prelude.Map
use edfs.Prelude.Map.{Map}
use edfs.Prelude.{ℕ, Option, none, some, List, [], ◌∷◌, add_u64}

abbrev pub INodeNo : Type 0
INodeNo = ℕ

pub record INodeMap : Type 0 where
  pub ino_to_id : Map NodeId
  pub id_to_ino : Map INodeNo
  pub next_ino : INodeNo

unfoldable pub new : INodeNo → INodeMap
new ino_root = record {
  ino_to_id = Map.insert ino_root root [];
  id_to_ino = Map.insert root ino_root [];
  next_ino = add_u64 ino_root 1;
}

unfoldable pub get_or_assign_ino : INodeMap → NodeId → INodeNo × INodeMap
get_or_assign_ino m node_id = elim (Map.get node_id m.id_to_ino) [
  | some ino ↦ (ino, m)
  | none ↦ (
    m.next_ino,
    record {
      next_ino = add_u64 m.next_ino 1;
      ino_to_id = Map.insert m.next_ino node_id m.ino_to_id;
      id_to_ino = Map.insert node_id m.next_ino m.id_to_ino;
    },
  )
]

unfoldable pub get_node_id : INodeMap → INodeNo → Option NodeId
get_node_id m ino = Map.get ino m.ino_to_id
