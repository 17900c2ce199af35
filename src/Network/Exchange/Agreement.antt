-- ===== src/Network/Exchange/Agreement.antt =====
-- src/network/handlers/tree_sync.rs: what one exchange of operations gives the peer that asked.
use mathlib.Core.List.{Memᴰ}
use mathlib.Core.List.Memᴰ
use edfs.Crates.{Crates, NodeOperation}
use edfs.FileSystem.{FileSystem}
use edfs.FileSystem.Chunks.{operation_ids, operations_missing_from}
use edfs.Network.Exchange.{apply_operations, sync_handle}
use edfs.Network.Fetcher.{Ctx}
use edfs.Network.Protocol.{OutboundRequestId, response, missing_operations}
use edfs.Network.Swarm.{Libp2p}
use edfs.Tree
use edfs.Tree.{logged_ids, missing_from}
use edfs.Tree.Exchange.{AreDistinct, known_or_missing, missing_from-Mem, missing_from-AreDistinct}
use edfs.Prelude.{ℕ, ◌↔◌, ◌⊎◌, inl, inr, List, [], ◌∷◌, ◌++◌}

-- What the documentation of `crdt_tree` promises of `apply_ops`: where timestamps are unique, the log has
-- the operations that it had and those that were applied.
pub record UnionLaw (crates : Crates) : Type 0 where
  pub mem-apply_ops :
      (r : crates.Replica) (operations : List NodeOperation) (o : NodeOperation)
      → AreDistinct (crates.log r ++ operations)
      → Memᴰ o (crates.log (crates.apply_ops r operations))
        ↔ (Memᴰ o (crates.log r) ⊎ Memᴰ o operations)

module _ (crates : Crates) (net : Libp2p) (law : UnionLaw crates) where
  open crates use {Replica, log}

  mem-apply_operations :
      (now : NodeOperation → ℕ) (fs : FileSystem Replica) (operations : List NodeOperation)
      (o : NodeOperation)
      → AreDistinct (log fs.tree.tree ++ operations)
      → Memᴰ o (log (apply_operations crates net now fs operations).tree.tree)
        ↔ (Memᴰ o (log fs.tree.tree) ⊎ Memᴰ o operations)
  unfolding apply_operations Tree.apply_operations
  mem-apply_operations now fs [] o distinct =
      (inl, λ m. elim m [ inl own ↦ own | inr none_sent ↦ absurd (Memᴰ.not-nil none_sent) ])
  mem-apply_operations now fs (p ∷ operations) o distinct =
      law.mem-apply_ops fs.tree.tree (p ∷ operations) o distinct

  -- Once a peer has handled the response of another to the identifiers of its own operations, its log has
  -- exactly the operations that it had and those that the other had. Condition: no two operations of
  -- the two logs share both the peer that made them and the value of its clock.
  pub exchange_complete :
      (now : NodeOperation → ℕ) (request_id : OutboundRequestId) (own other : Ctx crates net)
      (o : NodeOperation)
      → AreDistinct (log own.filesystem.tree.tree ++ log other.filesystem.tree.tree)
      → Memᴰ o (
          log
            (sync_handle crates net now
              (response request_id (
                missing_operations (
                  operations_missing_from crates other.filesystem
                    (operation_ids crates own.filesystem))))
              own).filesystem.tree.tree)
        ↔ (Memᴰ o (log own.filesystem.tree.tree) ⊎ Memᴰ o (log other.filesystem.tree.tree))
  unfolding Tree.operation_ids Tree.operations_missing_from
  exchange_complete now request_id own other o distinct =
      let known : List NodeOperation = log own.filesystem.tree.tree in
      let theirs : List NodeOperation = log other.filesystem.tree.tree in
      let sent : List NodeOperation = missing_from (logged_ids known) theirs in
      let (gained, kept) =
        mem-apply_operations now own.filesystem sent o
          (missing_from-AreDistinct known theirs distinct) in
      (
        (λ m. elim (gained m) [
          | inl mine ↦ inl mine
          | inr new ↦ inr ((missing_from-Mem known theirs o).0 new).0
        ]),
        (λ m. elim m [
          | inl mine ↦ kept (inl mine)
          | inr j ↦ kept (known_or_missing known theirs o distinct j)
        ]),
      )
