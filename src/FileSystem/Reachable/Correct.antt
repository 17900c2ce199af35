-- ===== src/FileSystem/Reachable/Correct.antt =====
-- The search finds the chunks of exactly the files that a path of directories leads to.
use edfs.Crates.{Crates}
use edfs.Domain.{ChunkHash, NodeId, root}
use edfs.FileSystem.{FileSystem}
use edfs.FileSystem.Reachable.{
  Search, visit_child, visit_all, search_loop, start_search, reachable_chunk_hashes,
}
use edfs.FileSystem.Reachable.Ends.{search_loop_empty, search_loop_spent, search_loop_round}
use edfs.FileSystem.Reachable.Paths.{
  kids, IsWalked, PathTo, top, down, Reaches, Inv, Inv-visit_child,
}
use mathlib.Core.Option.{some-injective}
use edfs.Prelude.{
  ℕ, zero, suc, ◌≡◌, ◌⊎◌, ◌↔◌, inl, inr, refl, ap, ◌∙◌, sym, subst, ◌==◌, ◌||◌, true, false,
  Bool-cases, some, Option-cases, List, [], ◌∷◌, mem, List-cases, arith,
}

module _ (crates : Crates) (fs : FileSystem (crates.Replica)) where
  open crates use {Replica}

  Inv-visit_all :
      (s : Search) (u : NodeId) (cs : List NodeId)
      → Inv crates fs s u cs
      → PathTo crates fs u
      → IsWalked crates fs u
      → ((c : NodeId) → (mem c cs ≡ false) ⊎ (mem c (kids crates fs u) ≡ true))
      → Inv crates fs (visit_all crates fs s cs) u []
  unfolding visit_all
  Inv-visit_all s u [] i from walk known = i
  Inv-visit_all s u (c ∷ cs) i from walk known =
      Inv-visit_all (visit_child crates fs s c) u cs
        (Inv-visit_child crates fs s u c cs i from walk (ground (arith, known c))) from walk
        (λ j. ground (arith, known j))

  -- A round starts: the node leaves the queue with its children still to be visited.
  Inv-pop :
      (s : Search) (u v : NodeId) (rest : List NodeId)
      → s.queue ≡ u ∷ rest
      → Inv crates fs s v []
      → Inv crates fs (record s { queue = rest }) u (kids crates fs u)
  Inv-pop s u v rest e i =
      let queue : (j : NodeId) → mem j s.queue ≡ (j == u || mem j rest) = λ j. ap (mem j) e in
      record {
        source = i.source;
        walked = λ j q. i.walked j (ground (arith, queue j));
        path = i.path;
        queued = λ j q. i.queued j (ground (arith, queue j));
        sound = i.sound;
        files = i.files;
        closed = λ j c seen walk kid. ground (arith, queue j, i.closed j c seen walk kid);
      }

  -- With no child left the node of the round does not matter.
  Inv-done : (s : Search) (u v : NodeId) → Inv crates fs s u [] → Inv crates fs s v []
  Inv-done s u v i = record {
    source = i.source;
    walked = i.walked;
    path = i.path;
    queued = i.queued;
    sound = i.sound;
    files = i.files;
    closed = λ j c seen walk kid. ground (arith, i.closed j c seen walk kid);
  }

  ended :
      (s t : Search) (v : NodeId)
      → Inv crates fs s v []
      → some s ≡ some t
      → s.queue ≡ []
      → Inv crates fs t v [] × (t.queue ≡ [])
  ended s t v i same empty =
      subst (λ r. Inv crates fs r v [] × (r.queue ≡ [])) (some-injective s t same) (i, empty)

  Inv-search_loop :
      (fuel : ℕ) (s t : Search) (v : NodeId)
      → Inv crates fs s v []
      → search_loop crates fuel fs s ≡ some t
      → Inv crates fs t v [] × (t.queue ≡ [])
  unfolding search_loop
  Inv-search_loop zero s t v i e = elim (List-cases s.queue) [
    | inl empty ↦ ended s t v i (sym (search_loop_empty crates zero fs s empty) ∙ e) empty
    | inr (u, rest, q) ↦ absurd (ground (arith, search_loop_spent crates fs s u rest q))
  ]
  Inv-search_loop (suc fuel) s t v i e = elim (List-cases s.queue) [
    | inl empty ↦ ended s t v i (sym (search_loop_empty crates (suc fuel) fs s empty) ∙ e) empty
    | inr (u, rest, q) ↦
        let seen = i.queued u (ground arith) in
        Inv-search_loop fuel _ t v
          (Inv-done _ u v (
            Inv-visit_all (record s { queue = rest }) u (kids crates fs u) (Inv-pop s u v rest q i)
              (i.path u seen) (i.walked u (ground arith))
              (λ c. elim (Bool-cases (mem c (kids crates fs u))) [
                | inl k ↦ inr k
                | inr k ↦ inl k
              ])))
          (sym (search_loop_round crates fuel fs s u rest q) ∙ e)
  ]

  Inv-start : Inv crates fs (start_search crates) root []
  Inv-start = record {
    source = refl;
    walked = λ v q. ground arith;
    path = λ v q. let e : root ≡ v = ground arith in subst (PathTo crates fs) e top;
    queued = λ v q. ground arith;
    sound = λ h m. cc;
    files = λ v h seen other. absurd (ground arith);
    closed = λ v c seen walk kid. ground arith;
  }

  -- With an empty queue every node at the end of a path is visited.
  complete :
      (t : Search) (u v : NodeId)
      → Inv crates fs t u []
      → t.queue ≡ []
      → PathTo crates fs v
      → mem v t.visited ≡ true
  complete t u v i empty top = i.source
  complete t u v i empty (down {p} {c} path walk kid live) =
      let seen = complete t u p i empty path in
      ground (arith, i.closed p c seen walk kid, ap (mem p) empty)

  -- What `reachable_chunk_hashes` returns has a hash exactly if some file has it among its chunks
  -- that a path from the root through directories leads to, past the trash.
  pub reachable_chunk_hashes_correct :
      (fuel : ℕ) (hashes : List ChunkHash) (h : ChunkHash)
      → reachable_chunk_hashes crates fuel fs ≡ some hashes
      → (mem h hashes ≡ true) ↔ Reaches crates fs h
  unfolding reachable_chunk_hashes
  reachable_chunk_hashes_correct fuel hashes h e =
      elim (Option-cases (search_loop crates fuel fs (start_search crates))) [
        | inl spent ↦ absurd (ground arith)
        | inr (t, ends) ↦
            let (i, empty) = Inv-search_loop fuel (start_search crates) t root Inv-start ends in
            let same : t.reachable ≡ hashes = ground arith in
            (
              λ m. i.sound h (ap (mem h) same ∙ m),
              λ r.
                  ap (mem h) (sym same)
                  ∙ i.files r.node h (complete t root r.node i empty r.path) r.not_root r.listed,
            )
      ]
