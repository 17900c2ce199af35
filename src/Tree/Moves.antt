-- ===== src/Tree/Moves.antt =====
-- What an operation of `NodeTree` does to the replica, from a state in which its clock is ahead.
use edfs.Crates.{Crates, IsAbove, parent, further, TreeLaws}
use edfs.Domain.{NodeId, NodeMeta}
use edfs.Hlc
use edfs.Hlc.{HybridLogicalClock, pack}
use edfs.Hlc.Order.{IsPackable, pack-lt-next}
use edfs.Tree.{NodeTree, move_and_apply, move_node, metadata, parent_id}
use edfs.Prelude.{
  ℕ, ◌+◌, ◌^◌, ◌≤◌, ◌<◌, ◌≡◌, ◌≢◌, refl, sym, subst, some, All, All-mono, ok, arith, ◌==◌,
  if◌then◌else◌,
}

-- The clock is ahead of every operation in the log and has room, and the tree has no cycle.
pub record IsReady (crates : Crates) (now : ℕ) (t : NodeTree (crates.Replica)) : Type 0 where
  pub packable : IsPackable t.clock
  pub time : now < 2 ^ 48
  pub room : t.clock.logical + 1 < 2 ^ 16
  pub ahead : All (λ l. l.counter ≤ pack t.clock) (crates.log t.tree)
  pub acyclic : (a : NodeId) → ¬ IsAbove crates t.tree a a

module _ (crates : Crates) (t : NodeTree (crates.Replica)) (node_id p : NodeId) (old : NodeMeta)
    (e : crates.find t.tree node_id ≡ some (p, old)) where
  pub metadata-eq-some : metadata crates t node_id ≡ some old
  unfolding metadata
  metadata-eq-some = rw (e, metadata)

  pub parent_id-eq-some : parent_id crates t node_id ≡ some p
  unfolding parent_id
  parent_id-eq-some = rw (e, parent_id)

  pub move_node-eq-ok :
      (now : ℕ) (new_parent : NodeId) (meta : NodeMeta)
      → move_node crates now t node_id new_parent meta ≡ (
        ok (move_and_apply crates now t node_id new_parent meta).0,
        (move_and_apply crates now t node_id new_parent meta).1,
      )
  unfolding move_node
  move_node-eq-ok now new_parent meta = rw (metadata-eq-some, move_node)

module _ (crates : Crates) (laws : TreeLaws crates) (now : ℕ) (t : NodeTree (crates.Replica))
    (ready : IsReady crates now t) where
  open crates use {Replica, find, log}
  open laws use {find-apply_op}

  module _ (node_id parent_id : NodeId) (meta : NodeMeta) where
    abbrev after : NodeTree Replica
    after = (move_and_apply crates now t node_id parent_id meta).1

    -- The replica after a move that closes no cycle.
    pub find-move :
        (j : NodeId)
        → node_id ≢ parent_id
        → ¬ IsAbove crates t.tree node_id parent_id
        → find after.tree j ≡ (if j == node_id then some (parent_id, meta) else find t.tree j)
    unfolding move_and_apply
    find-move j not_self not_above =
        let (later, _, _, _) = pack-lt-next now t.clock ready.packable ready.time ready.room in
        find-apply_op t.tree _ j (record {
          later = All-mono _ _ (log t.tree) (λ l h. omega arith) ready.ahead;
          not_self = not_self;
          not_above = not_above;
        })

    pub clock-move : after.clock ≡ (Hlc.next now t.clock).0
    unfolding move_and_apply
    clock-move = refl

  -- A node never stands above its own parent.
  pub not-IsAbove_parent :
      (node_id parent_id : NodeId) (meta : NodeMeta)
      → find t.tree node_id ≡ some (parent_id, meta)
      → (node_id ≢ parent_id) × (¬ IsAbove crates t.tree node_id parent_id)
  not-IsAbove_parent node_id p meta e = (
    λ same.
        ready.acyclic node_id
          (parent meta (subst (λ k. find t.tree node_id ≡ some (k, meta)) (sym same) e)),
    λ above. ready.acyclic node_id (further meta above e),
  )
