-- ===== src/Tests/Samples.antt =====
-- Concrete crates: a digest by powers of 257, a chunker with one range, and a replica that keeps its
-- nodes in an association list. They show that what is assumed of the crates can hold.
use mathlib.Core.List.{Memᴰ}
use mathlib.Core.List.Memᴰ
use edfs.Crates.{Crates, NodeOperation, TreeLaws, LogLaws, is_child_of}
use edfs.Domain.{Bytes, ChunkHash, NodeId, NodeMeta}
use edfs.Network.Exchange.Agreement.{UnionLaw}
use edfs.Prelude.Map
use edfs.Prelude.Map.{Map}
use edfs.Prelude.{
  ℕ, ◌+◌, ◌*◌, ◌≡◌, refl, false, List, [], ◌∷◌, arith, length, mem, All, ◌↔◌, ◌⊎◌, inl, inr,
  if◌then◌else◌,
}

abbrev pub sample_digest : Bytes → ChunkHash
sample_digest [] = 0
sample_digest (b ∷ bytes) = b + 1 + 257 * sample_digest bytes

abbrev pub one_range : Bytes → List (ℕ × ℕ)
one_range [] = []
one_range (b ∷ bytes) = (0, length (b ∷ bytes)) ∷ []

pub record Nodes : Type 0 where
  pub nodes : Map (NodeId × NodeMeta)
  pub log : List NodeOperation

abbrev pub move_in : Nodes → NodeOperation → Nodes
move_in r o = record {
  nodes = Map.insert o.child_id (o.parent_id, o.metadata) r.nodes;
  log = o ∷ r.log;
}

abbrev pub move_all : Nodes → List NodeOperation → Nodes
move_all r [] = r
move_all r (o ∷ os) = move_all (move_in r o) os

-- The keys of `keys` whose entry in `nodes` has the parent `p`.
abbrev pub children_in : Map (NodeId × NodeMeta) → NodeId → Map (NodeId × NodeMeta) → List NodeId
children_in nodes p [] = []
children_in nodes p ((k, v) ∷ keys) =
    let rest = children_in nodes p keys in
    if is_child_of p (Map.get k nodes) then k ∷ rest else rest

-- The new identifier is that of the parent and the length of the name.
abbrev pub sample_crates : Crates
sample_crates = record {
  digest = sample_digest;
  cutter = λ min_size avg_size max_size bytes. one_range bytes;
  new_v5 = λ parent name. parent * 1000 + 7;
  Replica = Nodes;
  new_replica = λ peer. record { nodes = []; log = [] };
  apply_op = move_in;
  apply_ops = move_all;
  find = λ r node. Map.get node r.nodes;
  children = λ r p. children_in r.nodes p r.nodes;
  log = λ r. r.log;
}

mem-children_in :
    (nodes keys : Map (NodeId × NodeMeta)) (p node : NodeId)
    → mem node (children_in nodes p keys)
      ≡ (if Map.is_some (Map.get node keys) then is_child_of p (Map.get node nodes) else false)
unfolding Map.get
mem-children_in nodes [] p node = refl
mem-children_in nodes ((k, v) ∷ keys) p node = ground (arith, mem-children_in nodes keys p node)

mem-children_all :
    (nodes : Map (NodeId × NodeMeta)) (p node : NodeId)
    → mem node (children_in nodes p nodes) ≡ is_child_of p (Map.get node nodes)
mem-children_all nodes p node = ground (arith, mem-children_in nodes nodes p node)

pub sample_laws : TreeLaws sample_crates
sample_laws = record {
  mem-children = λ r p node. mem-children_all r.nodes p node;
  find-apply_op = λ r o node h. Map.get-insert o.child_id node (o.parent_id, o.metadata) r.nodes;
  log-apply_op = λ r o P h k. (k, h);
}

log-move_all :
    (r : Nodes) (operations : List NodeOperation) (P : NodeOperation → Type 0)
    → All P r.log
    → All P operations
    → All P (move_all r operations).log
log-move_all r [] P h k = h
log-move_all r (o ∷ operations) P h k = log-move_all (move_in r o) operations P (k.0, h) k.1

pub sample_log_laws : LogLaws sample_crates
sample_log_laws = record { log-new_replica = λ peer P. tt; log-apply_ops = log-move_all }

mem-move_all :
    (r : Nodes) (operations : List NodeOperation) (o : NodeOperation)
    → Memᴰ o (move_all r operations).log ↔ (Memᴰ o r.log ⊎ Memᴰ o operations)
mem-move_all r [] o =
    (inl, λ m. elim m [ inl logged ↦ logged | inr none_moved ↦ absurd (Memᴰ.not-nil none_moved) ])
mem-move_all r (p ∷ operations) o =
    let (gained, kept) = mem-move_all (move_in r p) operations o in
    (
      (λ m. elim (gained m) [
        | inl (Memᴰ.head e) ↦ inr (Memᴰ.head e)
        | inl (Memᴰ.tail i) ↦ inl i
        | inr i ↦ inr (Memᴰ.tail i)
      ]),
      (λ m. elim m [
        | inl i ↦ kept (inl (Memᴰ.tail i))
        | inr (Memᴰ.head e) ↦ kept (inl (Memᴰ.head e))
        | inr (Memᴰ.tail i) ↦ kept (inr i)
      ]),
    )

pub sample_union_law : UnionLaw sample_crates
sample_union_law = record { mem-apply_ops = λ r operations o distinct. mem-move_all r operations o }
