-- ===== src/FileSystem/Reachable/Ends.antt =====
-- The search ends: each round takes one node off the queue, and queues only nodes not seen before.
use edfs.Crates.{Crates, TreeLaws}
use edfs.Domain.{is_reserved, ChunkHash, NodeId, NodeMeta, directory, regular_file, symlink, root}
use edfs.Tree
use edfs.FileSystem.{FileSystem}
use edfs.FileSystem.Reachable.{
  Search, note_child, visit_child, visit_all, children_or_none, search_loop, start_search,
  reachable_chunk_hashes,
}
use edfs.Prelude.{
  ℕ, zero, suc, ◌+◌, ◌≤◌, ◌<◌, ◌≡◌, ◌⊎◌, inl, inr, refl, ap, ◌∙◌, true, false, Bool-cases, Option,
  none, some, Option-cases, List, [], ◌∷◌, All, mem, length, length-append, count_unseen,
  count_unseen-le, count_unseen-insert, List-cases, arith,
}

module _ (crates : Crates) where
  open crates use {Replica}

  -- The outer loop, on an empty queue and on one more round.
  pub search_loop_empty :
      (fuel : ℕ) (fs : FileSystem Replica) (s : Search)
      → s.queue ≡ []
      → search_loop crates fuel fs s ≡ some s
  unfolding search_loop
  search_loop_empty zero fs s e = simp (e, search_loop)
  search_loop_empty (suc fuel) fs s e = simp (e, search_loop)

  pub search_loop_spent :
      (fs : FileSystem Replica) (s : Search) (u : NodeId) (rest : List NodeId)
      → s.queue ≡ u ∷ rest
      → search_loop crates zero fs s ≡ none
  unfolding search_loop
  search_loop_spent fs s u rest e = simp (e, search_loop)

  pub search_loop_round :
      (fuel : ℕ) (fs : FileSystem Replica) (s : Search) (u : NodeId) (rest : List NodeId)
      → s.queue ≡ u ∷ rest
      → search_loop crates (suc fuel) fs s
        ≡ search_loop crates fuel fs (
            visit_all crates fs
              (record s { queue = rest })
              (children_or_none crates (Tree.children_of crates fs.tree u)))
  unfolding search_loop
  search_loop_round fuel fs s u rest e = simp (e, search_loop)

module _ (crates : Crates) (fs : FileSystem (crates.Replica)) (nodes : List NodeId) where
  open crates use {Replica, find, children}

  abbrev work : Search → ℕ
  work s = count_unseen s.visited nodes + length s.queue

  length-note_child :
      (s : Search) (child : NodeId) (meta : Option NodeMeta)
      → ((note_child s child meta).visited ≡ s.visited)
        × (length (note_child s child meta).queue ≤ length s.queue + 1)
  unfolding note_child
  length-note_child s child none = (refl, omega arith)
  length-note_child s child (some (directory name)) =
      (refl, omega (arith, length-append s.queue (child ∷ [])))
  length-note_child s child (some (regular_file name size rs)) = (refl, omega arith)
  length-note_child s child (some (symlink name target)) = (refl, omega arith)

  work-visit_child :
      (s : Search) (child : NodeId)
      → mem child nodes ≡ true
      → work (visit_child crates fs s child) ≤ work s
  unfolding visit_child
  work-visit_child s child known =
      let s' : Search = record s { visited = child ∷ s.visited } in
      ground (
        arith,
        length-note_child s' child (Tree.metadata crates fs.tree child),
        count_unseen-insert child s.visited nodes,
      )

  work-visit_all :
      (s : Search) (cs : List NodeId)
      → All (λ c. mem c nodes ≡ true) cs
      → work (visit_all crates fs s cs) ≤ work s
  unfolding visit_all
  work-visit_all s [] known = omega arith
  work-visit_all s (c ∷ cs) known =
      omega
        (arith, work-visit_all (visit_child crates fs s c) cs known.1, work-visit_child s c known.0)

-- `nodes` lists every node that stands in the replica's tree.
abbrev pub IsFinite : (crates : Crates) → FileSystem (crates.Replica) → List NodeId → Type 0
IsFinite crates fs nodes = (j : NodeId) → (crates.find fs.tree.tree j ≡ none) ⊎ (mem j nodes ≡ true)

module _ (crates : Crates) (laws : TreeLaws crates) (fs : FileSystem (crates.Replica))
    (nodes : List NodeId) (finite : IsFinite crates fs nodes) where
  open crates use {Replica, find, children}
  open laws use {mem-children}

  child_known : (p c : NodeId) → (mem c (children fs.tree.tree p) ≡ false) ⊎ (mem c nodes ≡ true)
  child_known p c = ground (arith, finite c, mem-children fs.tree.tree p c)

  All-known :
      (cs : List NodeId)
      → ((c : NodeId) → (mem c cs ≡ false) ⊎ (mem c nodes ≡ true))
      → All (λ c. mem c nodes ≡ true) cs
  All-known [] h = tt
  All-known (c ∷ cs) h = (ground (arith, h c), All-known cs (λ j. ground (arith, h j)))

  kids-known :
      (u : NodeId)
      → All (λ c. mem c nodes ≡ true) (children_or_none crates (Tree.children_of crates fs.tree u))
  unfolding Tree.children_of
  kids-known u =
      let all = All-known (children fs.tree.tree u) (child_known u) in
      elim (Bool-cases (is_reserved u)) [
        | inl reserved ↦ rw (Tree.children_of, reserved) all
        | inr free ↦ elim (Option-cases (find fs.tree.tree u)) [
          | inl absent ↦ rw (Tree.children_of, free, absent) tt
          | inr (node, here) ↦ rw (Tree.children_of, free, here) all
        ]
      ]

  search_loop_ends :
      (fuel : ℕ) (s : Search)
      → work crates fs nodes s ≤ fuel
      → (t : Search) × (search_loop crates fuel fs s ≡ some t)
  unfolding search_loop
  search_loop_ends zero s h = elim (List-cases s.queue) [
    | inl empty ↦ (s, search_loop_empty crates zero fs s empty)
    | inr (u, rest, e) ↦ absurd (omega (arith, ap length e))
  ]
  search_loop_ends (suc fuel) s h = elim (List-cases s.queue) [
    | inl empty ↦ (s, search_loop_empty crates (suc fuel) fs s empty)
    | inr (u, rest, e) ↦
        let popped : Search = record s { queue = rest } in
        let kids : List NodeId = children_or_none crates (Tree.children_of crates fs.tree u) in
        let (t, ends) =
          search_loop_ends fuel (visit_all crates fs popped kids) (
            omega
              (arith, work-visit_all crates fs nodes popped kids (kids-known u), ap length e)) in
        (t, search_loop_round crates fuel fs s u rest e ∙ ends)
  ]

  -- The search ends, within one round more than there are nodes in the replica: with that fuel
  -- `reachable_chunk_hashes` returns.
  pub reachable_chunk_hashes_returns :
      (fuel : ℕ)
      → length nodes < fuel
      → (hashes : List ChunkHash) × (reachable_chunk_hashes crates fuel fs ≡ some hashes)
  unfolding reachable_chunk_hashes
  reachable_chunk_hashes_returns fuel enough =
      let (t, ends) =
        search_loop_ends fuel (start_search crates)
          (omega (arith, count_unseen-le (root ∷ []) nodes)) in
      (t.reachable, rw (reachable_chunk_hashes, ends) refl)
