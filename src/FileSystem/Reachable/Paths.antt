-- ===== src/FileSystem/Reachable/Paths.antt =====
-- The invariant of the search, and a visit of one node.
use edfs.Crates.{Crates}
use edfs.Domain.{ChunkHash, NodeId, NodeMeta, directory, regular_file, symlink, root, trash}
use edfs.Tree
use edfs.FileSystem.{FileSystem}
use edfs.FileSystem.Reachable.{Search, note_child, visit_child, children_or_none}
use edfs.Prelude.{
  ◌≡◌, ◌≢◌, ◌⊎◌, inl, inr, refl, ap, subst, ◌==◌, ◌||◌, ◌&&◌, Bool, true, false, Bool-cases, Option,
  none, some, List, [], ◌∷◌, map, mem, mem-append, mem-set_extend, arith,
}

abbrev pub is_dir : Option NodeMeta → Bool
is_dir none = false
is_dir (some (directory name)) = true
is_dir (some (regular_file name size refs)) = false
is_dir (some (symlink name target)) = false

-- The hashes of a file's chunks.
abbrev pub file_hashes : Option NodeMeta → List ChunkHash
file_hashes none = []
file_hashes (some (directory name)) = []
file_hashes (some (regular_file name size refs)) = map (λ r. r.hash) refs
file_hashes (some (symlink name target)) = []

-- What the `match` does to the sets.
record Noted (s : Search) (child : NodeId) (meta : Option NodeMeta) (t : Search) : Type 0 where
  visited : t.visited ≡ s.visited
  queue : (j : NodeId) → mem j t.queue ≡ (mem j s.queue || (j == child && is_dir meta))
  reachable : (h : ChunkHash) → mem h t.reachable ≡ (mem h s.reachable || mem h (file_hashes meta))

note_child-Noted :
    (s : Search) (child : NodeId) (meta : Option NodeMeta)
    → Noted s child meta (note_child s child meta)
unfolding note_child
note_child-Noted s child none = record {
  visited = refl;
  queue = λ j. ground arith;
  reachable = λ h. ground arith;
}
note_child-Noted s child (some (directory name)) = record {
  visited = refl;
  queue = λ j. ground (arith, mem-append j s.queue (child ∷ []));
  reachable = λ h. ground arith;
}
note_child-Noted s child (some (regular_file name size refs)) = record {
  visited = refl;
  queue = λ j. ground arith;
  reachable = λ h. mem-set_extend h s.reachable (map (λ r. r.hash) refs);
}
note_child-Noted s child (some (symlink name target)) = record {
  visited = refl;
  queue = λ j. ground arith;
  reachable = λ h. ground arith;
}

module _ (crates : Crates) (fs : FileSystem (crates.Replica)) where
  open crates use {Replica}

  abbrev pub meta_of : NodeId → Option NodeMeta
  meta_of u = Tree.metadata crates fs.tree u

  abbrev pub kids : NodeId → List NodeId
  kids u = children_or_none crates (Tree.children_of crates fs.tree u)

  -- A node whose children are walked through: the root or a directory.
  abbrev pub IsWalked : NodeId → Type 0
  IsWalked u = (u ≡ root) ⊎ (is_dir (meta_of u) ≡ true)

  -- A path from the root through directories, past the trash.
  pub data PathTo : NodeId → Type 0 where
    top : PathTo root
    down : {p c : NodeId} → PathTo p → IsWalked p → mem c (kids p) ≡ true → c ≢ trash → PathTo c

  -- A file at the end of a path has the hash among its chunks.
  pub record Reaches (h : ChunkHash) : Type 0 where
    pub node : NodeId
    pub path : PathTo node
    pub not_root : node ≢ root
    pub listed : mem h (file_hashes (meta_of node)) ≡ true

  -- The invariant, while the children `cs` of `u` are still to be visited.
  pub record Inv (s : Search) (u : NodeId) (cs : List NodeId) : Type 0 where
    pub source : mem root s.visited ≡ true
    pub walked : (v : NodeId) → mem v s.queue ≡ true → IsWalked v
    pub path : (v : NodeId) → mem v s.visited ≡ true → PathTo v
    pub queued : (v : NodeId) → mem v s.queue ≡ true → mem v s.visited ≡ true
    pub sound : (h : ChunkHash) → mem h s.reachable ≡ true → Reaches h
    pub files :
        (v : NodeId) (h : ChunkHash)
        → mem v s.visited ≡ true
        → v ≢ root
        → mem h (file_hashes (meta_of v)) ≡ true
        → mem h s.reachable ≡ true
    pub closed :
        (v c : NodeId)
        → mem v s.visited ≡ true
        → IsWalked v
        → mem c (kids v) ≡ true
        → (mem v s.queue ≡ true)
          ⊎ (c ≡ trash)
          ⊎ (mem c s.visited ≡ true)
          ⊎ ((v ≡ u) × (mem c cs ≡ true))

  -- A child that is the trash, or seen before, is passed over.
  Inv-pass :
      (s : Search) (u c : NodeId) (cs : List NodeId)
      → (c ≡ trash) ⊎ (mem c s.visited ≡ true)
      → Inv s u (c ∷ cs)
      → Inv s u cs
  Inv-pass s u c cs old i = record {
    source = i.source;
    walked = i.walked;
    path = i.path;
    queued = i.queued;
    sound = i.sound;
    files = i.files;
    closed = λ v j seen walk kid. ground (arith, i.closed v j seen walk kid);
  }

  module _ (s : Search) (u c : NodeId) (cs : List NodeId) (i : Inv s u (c ∷ cs)) (from : PathTo u)
      (walk_u : IsWalked u) (kid : mem c (kids u) ≡ true) (live : c ≢ trash)
      (new : mem c s.visited ≡ false) (t : Search)
      (n : Noted (record s { visited = c ∷ s.visited }) c (meta_of c) t) where
    seen : (j : NodeId) → mem j t.visited ≡ (j == c || mem j s.visited)
    seen j = ap (mem j) n.visited

    path_c : PathTo c
    path_c = down from walk_u kid live

    not_root_c : c ≢ root
    not_root_c same = ground (arith, i.source)

    path_t : (v : NodeId) → mem v t.visited ≡ true → PathTo v
    path_t v h = elim (Bool-cases (v == c)) [
      | inl same ↦ let e : c ≡ v = ground arith in subst PathTo e path_c
      | inr other ↦ i.path v (ground (arith, seen v))
    ]

    sound_t : (h : ChunkHash) → mem h t.reachable ≡ true → Reaches h
    sound_t h m = elim (Bool-cases (mem h s.reachable)) [
      | inl old ↦ i.sound h old
      | inr fresh ↦ record {
        node = c;
        path = path_c;
        not_root = not_root_c;
        listed = ground (arith, n.reachable h);
      }
    ]

    Inv-visit : Inv t u cs
    Inv-visit = record {
      source = ground (arith, i.source, seen root);
      walked = λ v q. ground (arith, n.queue v, i.walked v);
      path = path_t;
      queued = λ v q. ground (arith, n.queue v, seen v, i.queued v);
      sound = sound_t;
      files = λ v h m other listed. ground (arith, seen v, n.reachable h, i.files v h);
      closed = λ v j m walk k. ground (arith, seen v, seen j, n.queue v, i.closed v j, not_root_c);
    }

  pub Inv-visit_child :
      (s : Search) (u c : NodeId) (cs : List NodeId)
      → Inv s u (c ∷ cs)
      → PathTo u
      → IsWalked u
      → mem c (kids u) ≡ true
      → Inv (visit_child crates fs s c) u cs
  unfolding visit_child
  Inv-visit_child s u c cs i from walk kid = elim (Bool-cases (c == trash)) [
    | inl dead ↦ rw (visit_child, dead) (Inv-pass s u c cs (inl (ground arith)) i)
    | inr live ↦ elim (Bool-cases (mem c s.visited)) [
      | inl old ↦ rw (visit_child, live, old) (Inv-pass s u c cs (inr old) i)
      | inr new ↦
          rw (visit_child, live, new)
            (Inv-visit s u c cs i from walk kid (ground arith) new _
              (note_child-Noted (record s { visited = c ∷ s.visited }) c (meta_of c)))
    ]
  ]
