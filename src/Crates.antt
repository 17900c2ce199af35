-- ===== src/Crates.antt =====
-- The crates that the modelled code calls, as parameters: `sha2`, `fastcdc`, `uuid` and `crdt_tree`.
use edfs.Domain.{Bytes, ChunkHash, NodeId, NodeMeta}
use edfs.Chunking.{Cutter}
use edfs.Prelude.{
  ℕ, ◌<◌, ◌≡◌, ◌≢◌, String, Option, none, some, Bool, false, List, All, mem, ◌==◌, if◌then◌else◌,
}

-- A peer is a number that names it; `libp2p` compares such names for equality.
abbrev pub PeerId : Type 0
PeerId = ℕ

-- `OpMove<NodeId, NodeMeta, PeerId>`, with its timestamp, a `Clock<PeerId>`, in two fields.
pub record NodeOperation : Type 0 where
  pub actor_id : PeerId
  pub counter : ℕ
  pub parent_id : NodeId
  pub metadata : NodeMeta
  pub child_id : NodeId

pub record Crates : Type 1 where
  -- `Sha256::digest`, as a `ChunkHash`.
  pub digest : Bytes → ChunkHash
  -- `FastCDC::new(..)`, as an iterator.
  pub cutter : Cutter
  -- `Uuid::new_v5`.
  pub new_v5 : NodeId → String → NodeId
  -- `TreeReplica`, with `tree().find`, `tree().children` and `state().log()`.
  pub Replica : Type 0
  pub new_replica : PeerId → Replica
  pub apply_op : Replica → NodeOperation → Replica
  pub apply_ops : Replica → List NodeOperation → Replica
  pub find : Replica → NodeId → Option (NodeId × NodeMeta)
  pub children : Replica → NodeId → List NodeId
  pub log : Replica → List NodeOperation

abbrev pub is_child_of : NodeId → Option (NodeId × NodeMeta) → Bool
is_child_of parent none = false
is_child_of parent (some node) = node.0 == parent

module _ (crates : Crates) where
  open crates use {Replica, find, children, log, apply_op, apply_ops, new_replica}

  -- `a` is the parent of `b`, or of a parent of it, and so on.
  pub data IsAbove (r : Replica) (a : NodeId) : NodeId → Type 0 where
    parent : {b : NodeId} (meta : NodeMeta) → find r b ≡ some (a, meta) → IsAbove r a b
    further :
        {b c : NodeId} (meta : NodeMeta) → IsAbove r a b → find r c ≡ some (b, meta) → IsAbove r a c

  -- The operation is later than all in the log, and closes no cycle.
  pub record IsNewest (r : Replica) (o : NodeOperation) : Type 0 where
    pub later : All (λ l. l.counter < o.counter) (log r)
    pub not_self : o.child_id ≢ o.parent_id
    pub not_above : ¬ IsAbove r o.child_id o.parent_id

  -- What the documentation of `crdt_tree` promises of the calls made here: `children` agrees with
  -- `find`, and a later operation that closes no cycle moves its node, and that node only, and is
  -- all that the log gains.
  pub record TreeLaws : Type 1 where
    pub mem-children :
        (r : Replica) (parent node : NodeId)
        → mem node (children r parent) ≡ is_child_of parent (find r node)
    pub find-apply_op :
        (r : Replica) (o : NodeOperation) (node : NodeId)
        → IsNewest r o
        → find (apply_op r o) node
          ≡ (if node == o.child_id then some (o.parent_id, o.metadata) else find r node)
    pub log-apply_op :
        (r : Replica) (o : NodeOperation) (P : NodeOperation → Type 0)
        → All P (log r)
        → P o
        → All P (log (apply_op r o))

  -- The same of the log: that of a new replica is empty, and `apply_ops` adds only what it is given.
  pub record LogLaws : Type 1 where
    pub log-new_replica :
        (peer : PeerId) (P : NodeOperation → Type 0) → All P (log (new_replica peer))
    pub log-apply_ops :
        (r : Replica) (operations : List NodeOperation) (P : NodeOperation → Type 0)
        → All P (log r)
        → All P operations
        → All P (log (apply_ops r operations))
