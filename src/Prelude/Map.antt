-- ===== src/Prelude/Map.antt =====
-- `HashMap` with keys that are numbers: an association list. An iteration meets the entries in
-- the order of the list, which stands for the unspecified order of the hash map.
use Prim.Native.Nat.{ℕ, ◌+◌}
use mathlib.Core.Path.{◌≡◌, refl}
use mathlib.Core.Bool.{Bool, true, false}
use mathlib.Core.List.{List, [], ◌∷◌}
use mathlib.Core.Option.{Option, none, some}
use native.Mathlib.Omega.{arith}
use edfs.Prelude.Tests.{◌==◌, if◌then◌else◌}

abbrev pub Map {ℓ} : Type ℓ → Type ℓ
Map V = List (ℕ × V)

module _ {ℓ} {V : Type ℓ} where
  unfoldable pub get : ℕ → Map V → Option V
  get k [] = none
  get k ((j, v) ∷ m) = if j == k then some v else get k m

  -- An entry that is there is overwritten in its place.
  unfoldable pub insert : ℕ → V → Map V → Map V
  insert k v [] = (k, v) ∷ []
  insert k v ((j, w) ∷ m) = if j == k then (k, v) ∷ m else (j, w) ∷ insert k v m

  unfoldable pub remove : ℕ → Map V → Map V
  remove k [] = []
  remove k ((j, v) ∷ m) = let rest = remove k m in if j == k then rest else (j, v) ∷ rest

  -- `contains_key`.
  abbrev pub is_some : Option V → Bool
  is_some none = false
  is_some (some v) = true

  abbrev pub weight : (V → ℕ) → Option V → ℕ
  weight f none = 0
  weight f (some v) = f v

  -- The sum of `f` over the values.
  unfoldable pub total : (V → ℕ) → Map V → ℕ
  total f [] = 0
  total f ((j, v) ∷ m) = f v + total f m

  -- No key stands twice.
  abbrev pub Distinct : Map V → Type 0
  Distinct [] = Unit
  Distinct ((j, v) ∷ m) = (is_some (get j m) ≡ false) × Distinct m

  pub get-nil : (k : ℕ) → get k [] ≡ none
  unfolding get
  get-nil k = refl

  pub get-insert :
      (k j : ℕ) (v : V) (m : Map V) → get j (insert k v m) ≡ (if j == k then some v else get j m)
  unfolding get insert
  get-insert k j v [] = ground arith
  get-insert k j v ((i, w) ∷ m) = ground (arith, get-insert k j v m)

  pub get-remove : (k j : ℕ) (m : Map V) → get j (remove k m) ≡ (if j == k then none else get j m)
  unfolding get remove
  get-remove k j [] = ground arith
  get-remove k j ((i, w) ∷ m) = ground (arith, get-remove k j m)

  pub total-nil : (f : V → ℕ) → total f [] ≡ 0
  unfolding total
  total-nil f = refl

  pub total-insert :
      (f : V → ℕ) (k : ℕ) (v : V) (m : Map V)
      → total f (insert k v m) + weight f (get k m) ≡ total f m + f v
  unfolding total insert get
  total-insert f k v [] = omega arith
  total-insert f k v ((i, w) ∷ m) = ground (arith, total-insert f k v m)

  remove_absent : (k : ℕ) (m : Map V) → is_some (get k m) ≡ false → remove k m ≡ m
  unfolding remove get
  remove_absent k [] h = refl
  remove_absent k ((i, w) ∷ m) h = ground (arith, remove_absent k m)

  pub total-remove :
      (f : V → ℕ) (k : ℕ) (m : Map V)
      → Distinct m
      → total f (remove k m) + weight f (get k m) ≡ total f m
  unfolding total remove get
  total-remove f k [] d = omega arith
  total-remove f k ((i, w) ∷ m) d = ground (arith, total-remove f k m d.1, remove_absent k m)

  pub insert-Distinct : (k : ℕ) (v : V) (m : Map V) → Distinct m → Distinct (insert k v m)
  unfolding insert get
  insert-Distinct k v [] d = (refl, tt)
  insert-Distinct k v ((i, w) ∷ m) d = ground (arith, get-insert k i v m, insert-Distinct k v m d.1)

  pub remove-Distinct : (k : ℕ) (m : Map V) → Distinct m → Distinct (remove k m)
  unfolding remove get
  remove-Distinct k [] d = tt
  remove-Distinct k ((i, w) ∷ m) d = ground (arith, get-remove k i m, remove-Distinct k m d.1)

  pub total-eq-zero :
      (f : V → ℕ) (m : Map V) → Distinct m → ((k : ℕ) → weight f (get k m) ≡ 0) → total f m ≡ 0
  unfolding total get
  total-eq-zero f [] d z = refl
  total-eq-zero f ((i, w) ∷ m) d z =
      let rest : (k : ℕ) → weight f (get k m) ≡ 0 = λ k. ground (arith, z k, d.0) in
      ground (arith, z i, total-eq-zero f m d.1 rest)

pub ruleset map_laws = (get-nil, get-insert, get-remove, total-insert, total-remove)
