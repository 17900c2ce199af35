-- ===== src/FileSystem/Mutate/Names.antt =====
-- Names: what `child_id` finds after a node has moved.
use text.Mathlib.Text.{◌==◌ as str_eq}
use text.Mathlib.TextPositions.{eq_refl}
use edfs.Crates.{Crates, TreeLaws, IsAbove}
use edfs.Domain.{NodeId, NodeMeta, name_of, is_reserved}
use edfs.Tree
use edfs.Tree.{NodeTree, move_and_apply}
use edfs.Tree.Moves.{IsReady, find-move, metadata-eq-some}
use edfs.FileSystem.{FileSystem, not_found, child_id, find_named, is_named, ok_or}
use edfs.Prelude.{
  ℕ, ◌≡◌, ◌≢◌, ◌⊎◌, refl, ap, ◌∙◌, inl, inr, String, Bool, true, false, ◌==◌, Bool-cases, none,
  some, List, [], ◌∷◌, mem, ok, arith, if◌then◌else◌,
}

module _ (crates : Crates) where
  open crates use {Replica, find, children, new_v5}

  -- The name of a node in the tree.
  abbrev pub named : FileSystem Replica → String → NodeId → Bool
  named fs name j = is_named crates name (Tree.metadata crates fs.tree j)

  named_at :
      (fs : FileSystem Replica) (name : String) (j p : NodeId) (meta : NodeMeta)
      → find fs.tree.tree j ≡ some (p, meta)
      → name_of meta ≡ name
      → named fs name j ≡ true
  unfolding Tree.metadata
  named_at fs name j p meta found e =
      let same : Tree.metadata crates fs.tree j ≡ some meta =
        metadata-eq-some crates fs.tree j p meta found in
      ap (is_named crates name) same ∙ ap (λ n. str_eq n name) e ∙ eq_refl name

  named_congr :
      (fs fs' : FileSystem Replica) (name : String) (j : NodeId)
      → find fs'.tree.tree j ≡ find fs.tree.tree j
      → named fs' name j ≡ named fs name j
  unfolding Tree.metadata
  named_congr fs fs' name j same =
      ap (λ o. is_named crates name (elim o [ none ↦ none | some node ↦ some node.1 ])) same

  pub find_named-none :
      (fs : FileSystem Replica) (name : String) (xs : List NodeId) (j : NodeId)
      → find_named crates fs name xs ≡ none
      → (mem j xs ≡ false) ⊎ (named fs name j ≡ false)
  unfolding find_named
  find_named-none fs name [] j e = inl refl
  find_named-none fs name (x ∷ xs) j e = ground (arith, find_named-none fs name xs j)

  find_named-some :
      (fs : FileSystem Replica) (name : String) (id : NodeId) (xs : List NodeId)
      → mem id xs ≡ true
      → ((j : NodeId) → (j ≡ id) ⊎ (mem j xs ≡ false) ⊎ (named fs name j ≡ false))
      → named fs name id ≡ true
      → find_named crates fs name xs ≡ some id
  unfolding find_named
  find_named-some fs name id [] m others here = ground arith
  find_named-some fs name id (x ∷ xs) m others here =
      let later : (j : NodeId) → (j ≡ id) ⊎ (mem j xs ≡ false) ⊎ (named fs name j ≡ false) =
        λ j. ground (arith, others j) in
      elim (Bool-cases (x == id)) [
        | inl same ↦ ground arith
        | inr other ↦
            let rest = find_named-some fs name id xs (ground arith) later here in
            ground (arith, others x)
      ]

  -- The parent is one of the two reserved nodes or stands in the tree.
  abbrev pub Exists : FileSystem Replica → NodeId → Type 0
  Exists fs p =
      (is_reserved p ≡ true) ⊎ ((node : NodeId × NodeMeta) × (find fs.tree.tree p ≡ some node))

  pub child_id-eq :
      (fs : FileSystem Replica) (p : NodeId) (name : String)
      → Exists fs p
      → child_id crates fs p name
        ≡ ok_or not_found (find_named crates fs name (children fs.tree.tree p))
  unfolding child_id Tree.children_of
  child_id-eq fs p name (inl reserved) = rw (child_id, Tree.children_of, reserved) refl
  child_id-eq fs p name (inr (node, found)) = elim (Bool-cases (is_reserved p)) [
    | inl reserved ↦ rw (child_id, Tree.children_of, reserved) refl
    | inr free ↦ rw (child_id, Tree.children_of, free, found) refl
  ]

module _ (crates : Crates) (laws : TreeLaws crates) (now : ℕ) (fs : FileSystem (crates.Replica))
    (ready : IsReady crates now fs.tree) (id p : NodeId) (meta : NodeMeta) (not_self : id ≢ p)
    (not_above : ¬ IsAbove crates fs.tree.tree id p) where
  open crates use {Replica, find, children}
  open laws use {mem-children}

  abbrev pub after : FileSystem Replica
  after = record fs { tree = (move_and_apply crates now fs.tree id p meta).1 }

  pub found :
      (j : NodeId)
      → find after.tree.tree j ≡ (if j == id then some (p, meta) else find fs.tree.tree j)
  found j = find-move crates laws now fs.tree ready id p meta j not_self not_above

  after-Exists : (q : NodeId) → Exists crates fs q → Exists crates after q
  after-Exists q (inl reserved) = inl reserved
  after-Exists q (inr (node, here)) = elim (Bool-cases (q == id)) [
    | inl same ↦ inr ((p, meta), ground (arith, found q))
    | inr other ↦ inr (node, ground (arith, found q))
  ]

  others :
      (name : String)
      → ((j : NodeId)
          → (j ≡ id) ⊎ (mem j (children fs.tree.tree p) ≡ false) ⊎ (named crates fs name j ≡ false))
      → (j : NodeId)
      → (j ≡ id)
        ⊎ (mem j (children after.tree.tree p) ≡ false)
        ⊎ (named crates after name j ≡ false)
  others name alone j = elim (Bool-cases (j == id)) [
    | inl same ↦ inl (ground arith)
    | inr other ↦
        let kept : find after.tree.tree j ≡ find fs.tree.tree j = ground (arith, found j) in
        ground (
          arith,
          alone j,
          named_congr crates fs after name j kept,
          mem-children fs.tree.tree p j,
          mem-children after.tree.tree p j,
        )
  ]

  -- A node that is moved in under a name that no other child of the parent has is found there.
  pub moved-child_id :
      (name : String)
      → Exists crates fs p
      → name_of meta ≡ name
      → ((j : NodeId)
          → (j ≡ id) ⊎ (mem j (children fs.tree.tree p) ≡ false) ⊎ (named crates fs name j ≡ false))
      → child_id crates after p name ≡ ok id
  unfolding Tree.metadata
  moved-child_id name exists e alone =
      let here : named crates after name id ≡ true =
        named_at crates after name id p meta (ground (arith, found id)) e in
      let member : mem id (children after.tree.tree p) ≡ true =
        ground (arith, found id, mem-children after.tree.tree p id) in
      child_id-eq crates after p name (after-Exists p exists)
      ∙ ap (ok_or not_found) (
          find_named-some crates after name id (children after.tree.tree p) member
            (λ j. others name alone j) here)
