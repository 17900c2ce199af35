-- ===== src/Fuse/Inode/Bijection.antt =====
-- The inode numbers and the nodes stand one to one.
use edfs.Domain.{NodeId, root}
use edfs.Fuse.Inode.{INodeNo, INodeMap, new, get_or_assign_ino, get_node_id}
use edfs.Prelude.Map
use edfs.Prelude.Map.{Map, map_laws}
use edfs.Prelude.{
  ◌+◌, ◌≡◌, ◌<◌, ◌⊎◌, ◌^◌, refl, inl, inr, none, some, arith, Option-cases, ◌==◌, if◌then◌else◌,
  Bool-cases, add_u64,
}

-- Each number of `ino_to_id` is below `next_ino`, and its node has that number in `id_to_ino`; each
-- node of `id_to_ino` is what `ino_to_id` has under its number.
pub record IsBijection (m : INodeMap) : Type 0 where
  pub of_ino :
      (ino : INodeNo)
      → (Map.get ino m.ino_to_id ≡ none)
        ⊎ ((id : NodeId) × (Map.get ino m.ino_to_id ≡ some id)
            × (Map.get id m.id_to_ino ≡ some ino)
            × (ino < m.next_ino))
  pub of_id :
      (id : NodeId)
      → (Map.get id m.id_to_ino ≡ none)
        ⊎ ((ino : INodeNo) × (Map.get id m.id_to_ino ≡ some ino)
            × (Map.get ino m.ino_to_id ≡ some id))

pub new-IsBijection : (ino_root : INodeNo) → ino_root + 1 < 2 ^ 64 → IsBijection (new ino_root)
unfolding new Map.get Map.insert
new-IsBijection ino_root small = record {
  of_ino = λ ino. elim (Bool-cases (ino_root == ino)) [
    | inl same ↦ inr (root, ground arith, ground arith, ground arith)
    | inr other ↦ inl (rw other refl)
  ];
  of_id = λ id. elim (Bool-cases (root == id)) [
    | inl same ↦ inr (ino_root, ground arith, ground arith)
    | inr other ↦ inl (rw other refl)
  ];
}

-- What one call gives: a one-to-one map again, the number that it returned, and the numbers
-- given before.
pub record Assigned (m : INodeMap) (node_id : NodeId) (ino : INodeNo) (m' : INodeMap) : Type 0 where
  pub bijection : IsBijection m'
  pub found : get_node_id m' ino ≡ some node_id
  pub kept : (j : INodeNo) → (get_node_id m j ≡ none) ⊎ (get_node_id m' j ≡ get_node_id m j)

-- A node without a number, and its new number without a node.
module _ (m : INodeMap) (node_id : NodeId) (b : IsBijection m) (small : m.next_ino + 1 < 2 ^ 64)
    (fresh : Map.get node_id m.id_to_ino ≡ none) where
  abbrev added : INodeMap
  added = record {
    next_ino = add_u64 m.next_ino 1;
    ino_to_id = Map.insert m.next_ino node_id m.ino_to_id;
    id_to_ino = Map.insert node_id m.next_ino m.id_to_ino;
  }

  added_ino :
      (ino : INodeNo)
      → Map.get ino added.ino_to_id
        ≡ (if ino == m.next_ino then some node_id else Map.get ino m.ino_to_id)
  added_ino ino = Map.get-insert m.next_ino ino node_id m.ino_to_id

  added_id :
      (id : NodeId)
      → Map.get id added.id_to_ino
        ≡ (if id == node_id then some m.next_ino else Map.get id m.id_to_ino)
  added_id id = Map.get-insert node_id id m.next_ino m.id_to_ino

  next_is_new : Map.get m.next_ino m.ino_to_id ≡ none
  next_is_new = elim (b.of_ino m.next_ino) [
    | inl absent ↦ absent
    | inr (id, here, back, below) ↦ absurd (omega (arith, below))
  ]

  added-of_ino :
      (ino : INodeNo)
      → (Map.get ino added.ino_to_id ≡ none)
        ⊎ ((id : NodeId) × (Map.get ino added.ino_to_id ≡ some id)
            × (Map.get id added.id_to_ino ≡ some ino)
            × (ino < added.next_ino))
  added-of_ino ino = elim (Bool-cases (ino == m.next_ino)) [
    | inl same ↦
        inr (node_id, ground (arith, added_ino ino), ground (arith, added_id node_id), ground arith)
    | inr other ↦ elim (b.of_ino ino) [
      | inl absent ↦ inl (ground (arith, added_ino ino))
      | inr (id, here, back, below) ↦
          inr (id, ground (arith, added_ino ino), ground (arith, added_id id), omega (arith, below))
    ]
  ]

  added-of_id :
      (id : NodeId)
      → (Map.get id added.id_to_ino ≡ none)
        ⊎ ((ino : INodeNo) × (Map.get id added.id_to_ino ≡ some ino)
            × (Map.get ino added.ino_to_id ≡ some id))
  added-of_id id = elim (Bool-cases (id == node_id)) [
    | inl same ↦ inr (m.next_ino, ground (arith, added_id id), ground (arith, added_ino m.next_ino))
    | inr other ↦ elim (b.of_id id) [
      | inl absent ↦ inl (ground (arith, added_id id))
      | inr (ino, here, back) ↦
          inr (ino, ground (arith, added_id id), ground (arith, added_ino ino, next_is_new))
    ]
  ]

  added-Assigned : Assigned m node_id m.next_ino added
  unfolding get_node_id
  added-Assigned = record {
    bijection = record { of_ino = added-of_ino; of_id = added-of_id };
    found = ground (arith, added_ino m.next_ino);
    kept = λ j. ground (arith, added_ino j, next_is_new);
  }

known-Assigned :
    (m : INodeMap) (node_id : NodeId) (ino : INodeNo)
    → IsBijection m
    → Map.get node_id m.id_to_ino ≡ some ino
    → Assigned m node_id ino m
unfolding get_node_id
known-Assigned m node_id ino b known = record {
  bijection = b;
  found = elim (b.of_id node_id) [
    | inl absent ↦ absurd (ground arith)
    | inr (i, here, back) ↦ ground arith
  ];
  kept = λ j. inr refl;
}

-- A node keeps the number it has or is given a new one: the number stands for the node from then
-- on, no other number changes its node, and numbers and nodes stay one to one, as long as the
-- numbers do not run out.
pub get_or_assign_ino-Assigned :
    (m : INodeMap) (node_id : NodeId)
    → IsBijection m
    → m.next_ino + 1 < 2 ^ 64
    → Assigned m node_id (get_or_assign_ino m node_id).0 (get_or_assign_ino m node_id).1
unfolding get_or_assign_ino
get_or_assign_ino-Assigned m node_id b small = elim (Option-cases (Map.get node_id m.id_to_ino)) [
  | inl fresh ↦ rw (get_or_assign_ino, fresh) (added-Assigned m node_id b small fresh)
  | inr (ino, known) ↦ rw (get_or_assign_ino, known) (known-Assigned m node_id ino b known)
]
