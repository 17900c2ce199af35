-- ===== src/Tree/Clock.antt =====
-- src/filesystem/tree/mod.rs: the clock of a `NodeTree` over the operations that it makes and applies.
use edfs.Crates.{Crates, NodeOperation, PeerId, TreeLaws, LogLaws}
use edfs.Domain.{NodeId, NodeMeta}
use edfs.Hlc
use edfs.Hlc.{HybridLogicalClock, pack}
use edfs.Hlc.Order.{IsPackable, pack-lt-next, observe-le}
use edfs.Tree.{NodeTree, new, move_and_apply, observe_all, apply_operations}
use edfs.Prelude.{ℕ, ◌+◌, ◌^◌, ◌≤◌, ◌<◌, List, [], ◌∷◌, All, All-mono, arith}

-- The clock fits into its 64 bits, and no operation in the log is later.
pub record IsAhead (crates : Crates) (t : NodeTree (crates.Replica)) : Type 0 where
  pub packable : IsPackable t.clock
  pub ahead : All (λ l. l.counter ≤ pack t.clock) (crates.log t.tree)

-- Every operation that was observed is no later than the clock afterwards, which is not behind.
observe_all_ahead :
    (now : NodeOperation → ℕ) (c : HybridLogicalClock) (operations : List NodeOperation)
    → IsPackable c
    → ((o : NodeOperation) → now o < 2 ^ 48)
    → All (λ o. o.counter < 2 ^ 64) operations
    → IsPackable (observe_all now c operations)
      × (pack c ≤ pack (observe_all now c operations))
      × All (λ o. o.counter ≤ pack (observe_all now c operations)) operations
unfolding observe_all
observe_all_ahead now c [] p n b = (p, omega arith, tt)
observe_all_ahead now c (o ∷ operations) p n b =
    let (own, other, p') = observe-le (now o) o.counter c p (n o) b.0 in
    let (q, later, rest) =
      observe_all_ahead now (Hlc.observe (now o) o.counter c) operations p' n b.1 in
    (q, omega arith, (omega arith, rest))

module _ (crates : Crates) (laws : TreeLaws crates) (log_laws : LogLaws crates) where
  open crates use {Replica, log}

  -- The trees of a peer that makes operations, while its clock has room, and applies those of others,
  -- with readings of the wall clock below 2 ^ 48 and timestamps of 64 bits.
  pub data Grown : NodeTree Replica → Type 0 where
    start : (peer : PeerId) → Grown (new crates peer)
    made :
        (t : NodeTree Replica) (now : ℕ) (node_id parent_id : NodeId) (meta : NodeMeta)
        → Grown t
        → now < 2 ^ 48
        → t.clock.logical + 1 < 2 ^ 16
        → Grown (move_and_apply crates now t node_id parent_id meta).1
    applied :
        (t : NodeTree Replica) (now : NodeOperation → ℕ) (operations : List NodeOperation)
        → Grown t
        → ((o : NodeOperation) → now o < 2 ^ 48)
        → All (λ o. o.counter < 2 ^ 64) operations
        → Grown (apply_operations crates now t operations)

  new-IsAhead : (peer : PeerId) → IsAhead crates (new crates peer)
  unfolding new Hlc.new
  new-IsAhead peer = record {
    packable = record { physical = omega arith; logical = omega arith };
    ahead = log_laws.log-new_replica peer _;
  }

  move_and_apply-IsAhead :
      (now : ℕ) (t : NodeTree Replica) (node_id parent_id : NodeId) (meta : NodeMeta)
      → IsAhead crates t
      → now < 2 ^ 48
      → t.clock.logical + 1 < 2 ^ 16
      → IsAhead crates (move_and_apply crates now t node_id parent_id meta).1
  unfolding move_and_apply
  move_and_apply-IsAhead now t node_id parent_id meta a time room =
      let (later, p, _, same) = pack-lt-next now t.clock a.packable time room in
      record {
        packable = p;
        ahead =
            laws.log-apply_op t.tree (move_and_apply crates now t node_id parent_id meta).0 _
              (All-mono _ _ (log t.tree) (λ l h. omega arith) a.ahead) (omega arith);
      }

  apply_operations-IsAhead :
      (now : NodeOperation → ℕ) (t : NodeTree Replica) (operations : List NodeOperation)
      → IsAhead crates t
      → ((o : NodeOperation) → now o < 2 ^ 48)
      → All (λ o. o.counter < 2 ^ 64) operations
      → IsAhead crates (apply_operations crates now t operations)
  unfolding apply_operations
  apply_operations-IsAhead now t operations a n b =
      let (p, later, observed) = observe_all_ahead now t.clock operations a.packable n b in
      record {
        packable = p;
        ahead =
            log_laws.log-apply_ops t.tree operations _
              (All-mono _ _ (log t.tree) (λ l h. omega arith) a.ahead) observed;
      }

  Grown-IsAhead : (t : NodeTree Replica) → Grown t → IsAhead crates t
  Grown-IsAhead _ (start peer) = new-IsAhead peer
  Grown-IsAhead _ (made t now node_id parent_id meta r time room) =
      move_and_apply-IsAhead now t node_id parent_id meta (Grown-IsAhead t r) time room
  Grown-IsAhead _ (applied t now operations r n b) =
      apply_operations-IsAhead now t operations (Grown-IsAhead t r) n b

  -- In every tree that a peer reaches by making operations, each while its clock has room, and by applying
  -- those of others, no operation in the log is later than the clock; and, while the clock has room, the
  -- next operation that the peer makes is later than all in the log.
  pub move_and_apply_later :
      (t : NodeTree Replica) (now : ℕ) (node_id parent_id : NodeId) (meta : NodeMeta)
      → Grown t
      → now < 2 ^ 48
      → t.clock.logical + 1 < 2 ^ 16
      → All (λ l. l.counter ≤ pack t.clock) (log t.tree)
        × All
            (λ l. l.counter < (move_and_apply crates now t node_id parent_id meta).0.counter)
            (log t.tree)
  unfolding move_and_apply
  move_and_apply_later t now node_id parent_id meta r time room =
      let a = Grown-IsAhead t r in
      let (later, _, _, _) = pack-lt-next now t.clock a.packable time room in
      (a.ahead, All-mono _ _ (log t.tree) (λ l h. omega arith) a.ahead)
