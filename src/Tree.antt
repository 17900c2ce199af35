-- ===== src/Tree.antt =====
-- src/filesystem/tree/mod.rs: `NodeTree`, the tree of nodes over the replica and the clock.
-- A call that reads the wall clock takes its value as `now`.
pub mod Moves
pub mod Exchange
pub mod Clock
use edfs.Crates.{Crates, NodeOperation, PeerId}
use edfs.Domain.{NodeId, NodeMeta, root, trash, is_reserved}
use edfs.Hlc
use edfs.Hlc.{HybridLogicalClock}
use mathlib.Core.Option
use edfs.Prelude.{
  ℕ, Bool, true, false, not, ◌&&◌, ◌||◌, ◌==◌, Option, none, some, List, [], ◌∷◌, Result, ok, err,
  panic, if◌then◌else◌,
}

pub data NodeTreeError : Type 0 where
  not_found reserved_node : NodeTreeError

pub record NodeTree (Replica : Type 0) : Type 0 where
  pub peer_id : PeerId
  pub tree : Replica
  pub clock : HybridLogicalClock

abbrev pub NodeOperationId : Type 0
NodeOperationId = PeerId × ℕ

-- `ids.contains(&id)`.
abbrev pub has_id : List NodeOperationId → NodeOperationId → Bool
has_id [] id = false
has_id (i ∷ ids) id = (i.0 == id.0 && i.1 == id.1) || has_id ids id

-- `filter` of `operations_missing_from`.
unfoldable pub missing_from : List NodeOperationId → List NodeOperation → List NodeOperation
missing_from ids [] = []
missing_from ids (o ∷ log) =
    let rest = missing_from ids log in
    if not (has_id ids (o.actor_id, o.counter)) then o ∷ rest else rest

-- `map` of `operation_ids`.
unfoldable pub logged_ids : List NodeOperation → List NodeOperationId
logged_ids [] = []
logged_ids (o ∷ log) = (o.actor_id, o.counter) ∷ logged_ids log

-- The loop of `apply_operations` over the clock; `now` is the reading made for each operation.
unfoldable pub observe_all :
    (NodeOperation → ℕ) → HybridLogicalClock → List NodeOperation → HybridLogicalClock
observe_all now c [] = c
observe_all now c (o ∷ operations) = observe_all now (Hlc.observe (now o) o.counter c) operations

module _ (crates : Crates) where
  open crates use {Replica, new_replica, apply_op, apply_ops, find, children, log}

  unfoldable pub new : PeerId → NodeTree Replica
  new peer_id = record { peer_id = peer_id; tree = new_replica peer_id; clock = Hlc.new }

  unfoldable pub metadata : NodeTree Replica → NodeId → Option NodeMeta
  metadata t node_id = elim (find t.tree node_id) [ none ↦ none | some node ↦ some node.1 ]

  unfoldable pub parent_id : NodeTree Replica → NodeId → Option NodeId
  parent_id t node_id = elim (find t.tree node_id) [ none ↦ none | some node ↦ some node.0 ]

  -- `move_operation` and the `apply_op` that each of its callers makes at once.
  unfoldable pub move_and_apply :
      ℕ → NodeTree Replica → NodeId → NodeId → NodeMeta → NodeOperation × NodeTree Replica
  move_and_apply now t node_id parent_id meta =
      let (clock, counter) = Hlc.next now t.clock in
      let operation : NodeOperation = record {
        actor_id = t.peer_id;
        counter = counter;
        parent_id = parent_id;
        metadata = meta;
        child_id = node_id;
      } in
      (operation, record t { tree = apply_op t.tree operation; clock = clock })

  unfoldable pub create_node :
      ℕ → NodeTree Replica → NodeId → NodeId → NodeMeta → NodeOperation × NodeTree Replica
  create_node now t parent_id node_id meta = move_and_apply now t node_id parent_id meta

  unfoldable pub move_node :
      ℕ
      → NodeTree Replica
      → NodeId
      → NodeId
      → NodeMeta
      → Result NodeTreeError NodeOperation × NodeTree Replica
  move_node now t node_id parent_id meta = elim (metadata t node_id) [
    | none ↦ (err not_found, t)
    | some _ ↦
        let (operation, t') = move_and_apply now t node_id parent_id meta in (ok operation, t')
  ]

  unfoldable pub delete_node :
      ℕ → NodeTree Replica → NodeId → Result NodeTreeError NodeOperation × NodeTree Replica
  delete_node now t node_id =
      if is_reserved node_id then (err reserved_node, t) else elim (metadata t node_id) [
        | none ↦ (err not_found, t)
        | some meta ↦
            let (operation, t') = move_and_apply now t node_id trash meta in (ok operation, t')
      ]

  unfoldable pub children_of : NodeTree Replica → NodeId → Result NodeTreeError (List NodeId)
  children_of t parent =
      if not (is_reserved parent)
      then elim (find t.tree parent) [ none ↦ err not_found | some _ ↦ ok (children t.tree parent) ]
      else ok (children t.tree parent)

  unfoldable pub is_trashed : NodeTree Replica → NodeId → Bool
  is_trashed t node_id = elim (parent_id t node_id) [ none ↦ false | some p ↦ p == trash ]

  unfoldable pub apply_operations :
      (NodeOperation → ℕ) → NodeTree Replica → List NodeOperation → NodeTree Replica
  apply_operations now t operations = record t {
    clock = observe_all now t.clock operations;
    tree = apply_ops t.tree operations;
  }

  unfoldable pub operation_ids : NodeTree Replica → List NodeOperationId
  operation_ids t = logged_ids (log t.tree)

  unfoldable pub operations_missing_from :
      NodeTree Replica → List NodeOperationId → List NodeOperation
  operations_missing_from t ids = missing_from ids (log t.tree)
