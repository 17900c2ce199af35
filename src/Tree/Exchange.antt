-- ===== src/Tree/Exchange.antt =====
-- `operations_missing_from`: what a peer sends to another that has shown its identifiers.
use mathlib.Core.List.{Memᴰ}
use mathlib.Core.List.Memᴰ
use edfs.Crates.{Crates, NodeOperation}
use edfs.Tree.{
  NodeTree, NodeOperationId, has_id, logged_ids, missing_from, operation_ids,
  operations_missing_from,
}
use edfs.Prelude.{
  ◌≡◌, ◌≢◌, ◌↔◌, ◌⊎◌, inl, inr, refl, sym, subst, ◌==◌, ◌&&◌, Bool-cases, true, false, List, [],
  ◌∷◌, ◌++◌, All, arith,
}

-- Two operations that differ in the peer that made them or in its clock then.
abbrev pub Differ : NodeOperation → NodeOperation → Type 0
Differ a b = (a.actor_id ≢ b.actor_id) ⊎ (a.counter ≢ b.counter)

-- No two operations of these share their peer and the value of its clock.
abbrev pub AreDistinct : List NodeOperation → Type 0
AreDistinct log = (a b : NodeOperation) → Memᴰ a log → Memᴰ b log → (a ≡ b) ⊎ Differ a b

-- Either the identifier of `o` is that of one of these operations, or it differs from all.
data Seen (known : List NodeOperation) (o : NodeOperation) : Type 0 where
  seen :
      (l : NodeOperation)
      → has_id (logged_ids known) (o.actor_id, o.counter) ≡ true
      → Memᴰ l known
      → o.actor_id ≡ l.actor_id
      → o.counter ≡ l.counter
      → Seen known o
  unseen :
      has_id (logged_ids known) (o.actor_id, o.counter) ≡ false
      → All (Differ o) known
      → Seen known o

is_seen : (known : List NodeOperation) (o : NodeOperation) → Seen known o
unfolding logged_ids
is_seen [] o = unseen refl tt
is_seen (k ∷ known) o = elim (Bool-cases (k.actor_id == o.actor_id && k.counter == o.counter)) [
  | inl same ↦ seen k (ground arith) (Memᴰ.head refl) (ground arith) (ground arith)
  | inr other ↦ elim (is_seen known o) [
    | seen l h m a c ↦ seen l (ground arith) (Memᴰ.tail m) a c
    | unseen h all ↦ unseen (ground arith) (ground arith, all)
  ]
]

module _ (ids : List NodeOperationId) (o : NodeOperation) (log : List NodeOperation) where
  missing_from_seen :
      has_id ids (o.actor_id, o.counter) ≡ true → missing_from ids (o ∷ log) ≡ missing_from ids log
  unfolding missing_from
  missing_from_seen h = rw h

  missing_from_unseen :
      has_id ids (o.actor_id, o.counter) ≡ false
      → missing_from ids (o ∷ log) ≡ o ∷ missing_from ids log
  unfolding missing_from
  missing_from_unseen h = rw h

missing_from-nil : (ids : List NodeOperationId) → missing_from ids [] ≡ []
unfolding missing_from
missing_from-nil ids = refl

differs_from :
    (known : List NodeOperation) (o l : NodeOperation)
    → All (Differ o) known
    → Memᴰ l known
    → Differ o l
differs_from [] o l all m = absurd (Memᴰ.not-nil m)
differs_from (k ∷ known) o l (d, all) (Memᴰ.head e) = subst (Differ o) (sym e) d
differs_from (k ∷ known) o l (d, all) (Memᴰ.tail m) = differs_from known o l all m

same-not-Differ :
    (a b : NodeOperation) → a.actor_id ≡ b.actor_id → a.counter ≡ b.counter → ¬ Differ a b
same-not-Differ a b e f (inl d) = d e
same-not-Differ a b e f (inr d) = d f

-- What is missing: the operations of the log that differ from all that are known.
pub missing_from-Mem :
    (known log : List NodeOperation) (o : NodeOperation)
    → Memᴰ o (missing_from (logged_ids known) log) ↔ (Memᴰ o log × All (Differ o) known)
missing_from-Mem known [] o = rw (missing_from-nil) (λ m. absurd (Memᴰ.not-nil m), λ p. p.0)
missing_from-Mem known (l ∷ log) o =
    let (sent, back) = missing_from-Mem known log o in
    elim (is_seen known l) [
      | seen k h m a c ↦ rw (missing_from_seen (logged_ids known) l log h) (
        (λ i. let (j, d) = sent i in (Memᴰ.tail j, d)),
        (λ p. elim (Memᴰ.cases_cons p.0) [
          | inl e ↦ absurd (
              same-not-Differ l k a c
                (differs_from known l k (subst (λ x. All (Differ x) known) e p.1) m))
          | inr j ↦ back (j, p.1)
        ]),
      )
      | unseen h all ↦ rw (missing_from_unseen (logged_ids known) l log h) (
        (λ i. elim (Memᴰ.cases_cons i) [
          | inl e ↦ (Memᴰ.head e, subst (λ x. All (Differ x) known) (sym e) all)
          | inr j ↦ let (k, d) = sent j in (Memᴰ.tail k, d)
        ]),
        (λ p. elim (Memᴰ.cases_cons p.0) [
          | inl e ↦ Memᴰ.head e
          | inr j ↦ Memᴰ.tail (back (j, p.1))
        ]),
      )
    ]

-- An operation that is not among those sent for `known` is known, if it is in the log.
pub known_or_missing :
    (known log : List NodeOperation) (o : NodeOperation)
    → AreDistinct (known ++ log)
    → Memᴰ o log
    → Memᴰ o known ⊎ Memᴰ o (missing_from (logged_ids known) log)
known_or_missing known log o distinct i = elim (is_seen known o) [
  | unseen h all ↦ inr ((missing_from-Mem known log o).1 (i, all))
  | seen k h m a c ↦ elim (distinct o k (Memᴰ.append_right known i) (Memᴰ.append_left log m)) [
    | inl e ↦ inl (Memᴰ.cast e m)
    | inr d ↦ absurd (same-not-Differ o k a c d)
  ]
]

-- Nothing that is sent clashes with what is known.
pub missing_from-AreDistinct :
    (known log : List NodeOperation)
    → AreDistinct (known ++ log)
    → AreDistinct (known ++ missing_from (logged_ids known) log)
missing_from-AreDistinct known log distinct a b i j = distinct a b (widen a i) (widen b j)
  where
    widen :
        (o : NodeOperation)
        → Memᴰ o (known ++ missing_from (logged_ids known) log)
        → Memᴰ o (known ++ log)
    widen o m = elim (Memᴰ.append_cases known m) [
      | inl here ↦ Memᴰ.append_left log here
      | inr sent ↦ Memᴰ.append_right known ((missing_from-Mem known log o).0 sent).0
    ]

module _ (crates : Crates) where
  -- The operations that a peer sends to another that has shown the identifiers of its log are exactly
  -- those of its own log that differ from each operation of the other's log in the peer that made them
  -- or in the value of that peer's clock.
  pub operations_missing_from-operation_ids :
      (t other : NodeTree (crates.Replica)) (o : NodeOperation)
      → Memᴰ o (operations_missing_from crates t (operation_ids crates other))
        ↔ (Memᴰ o (crates.log t.tree) × All (Differ o) (crates.log other.tree))
  unfolding operations_missing_from operation_ids
  operations_missing_from-operation_ids t other o =
      missing_from-Mem (crates.log other.tree) (crates.log t.tree) o
