-- ===== src/Prelude/Lists.antt =====
-- Lists measured by native numbers, and lists of numbers used as sets and as queues.
use Prim.Native.Nat.{ℕ, zero, suc, ◌+◌, ◌-◌, ◌≤◌, min}
use mathlib.Core.Path.{◌≡◌, refl, ap}
use mathlib.Core.Logic.{◌⊎◌, inl, inr}
use mathlib.Core.Bool.{Bool, true, false, ◌||◌}
use mathlib.Core.List.{List, [], ◌∷◌, ◌++◌}
use native.Mathlib.Omega.{arith}
use edfs.Prelude.Tests.{◌==◌, if◌then◌else◌}

module _ {ℓ} {A : Type ℓ} where
  abbrev pub length : List A → ℕ
  length [] = 0
  length (x ∷ xs) = suc (length xs)

  abbrev pub take : ℕ → List A → List A
  take zero xs = []
  take (suc n) [] = []
  take (suc n) (x ∷ xs) = x ∷ take n xs

  abbrev pub drop : ℕ → List A → List A
  drop zero xs = xs
  drop (suc n) [] = []
  drop (suc n) (x ∷ xs) = drop n xs

  abbrev pub replicate : ℕ → A → List A
  replicate zero a = []
  replicate (suc n) a = a ∷ replicate n a

  pub length-append : (xs ys : List A) → length (xs ++ ys) ≡ length xs + length ys
  length-append [] ys = omega arith
  length-append (x ∷ xs) ys = omega (arith, length-append xs ys)

  pub take-append-drop : (n : ℕ) (xs : List A) → take n xs ++ drop n xs ≡ xs
  take-append-drop zero xs = refl
  take-append-drop (suc n) [] = refl
  take-append-drop (suc n) (x ∷ xs) = rw (take-append-drop n xs)

  pub length-take : (n : ℕ) (xs : List A) → length (take n xs) ≡ min n (length xs)
  length-take zero xs = omega arith
  length-take (suc n) [] = omega arith
  length-take (suc n) (x ∷ xs) = omega (arith, length-take n xs)

  pub length-drop : (n : ℕ) (xs : List A) → length (drop n xs) ≡ length xs - n
  length-drop zero xs = omega arith
  length-drop (suc n) [] = omega arith
  length-drop (suc n) (x ∷ xs) = omega (arith, length-drop n xs)

  pub length-replicate : (n : ℕ) (a : A) → length (replicate n a) ≡ n
  length-replicate zero a = refl
  length-replicate (suc n) a = ap suc (length-replicate n a)

  -- Every element satisfies `P`, computed to a tuple.
  abbrev pub All {κ} : (A → Type κ) → List A → Type κ
  All P [] = Unit
  All P (x ∷ xs) = P x × All P xs

pub All-append {ℓ κ} :
    {A : Type ℓ} (P : A → Type κ) (xs ys : List A) → All P xs → All P ys → All P (xs ++ ys)
All-append P [] ys h k = k
All-append P (x ∷ xs) ys h k = (h.0, All-append P xs ys h.1 k)

module _ {ℓ κ κ'} {A : Type ℓ} (P : A → Type κ) (Q : A → Type κ') where
  pub All-mono : (xs : List A) → ((a : A) → P a → Q a) → All P xs → All Q xs
  All-mono [] f h = tt
  All-mono (x ∷ xs) f h = (f x h.0, All-mono xs f h.1)

  pub All-zip : (xs : List A) → All P xs → All Q xs → All (λ a. P a × Q a) xs
  All-zip [] h k = tt
  All-zip (x ∷ xs) h k = ((h.0, k.0), All-zip xs h.1 k.1)

module _ {ℓ} {A : Type ℓ} where
  -- `chunks`: pieces of `n` elements, and the rest. The number of elements is fuel enough.
  unfoldable pub chunks_on : ℕ → ℕ → List A → List (List A)
  chunks_on zero n xs = []
  chunks_on (suc fuel) n [] = []
  chunks_on (suc fuel) n (x ∷ xs) = take n (x ∷ xs) ∷ chunks_on fuel n (drop n (x ∷ xs))

  abbrev pub chunks : ℕ → List A → List (List A)
  chunks n xs = chunks_on (length xs) n xs

  abbrev pub join : List (List A) → List A
  join [] = []
  join (xs ∷ xss) = xs ++ join xss

  pub join-chunks_on :
      (fuel n : ℕ) (xs : List A) → length xs ≤ fuel → 1 ≤ n → join (chunks_on fuel n xs) ≡ xs
  unfolding chunks_on
  join-chunks_on zero n [] h k = refl
  join-chunks_on zero n (x ∷ xs) h k = absurd (omega arith)
  join-chunks_on (suc fuel) n [] h k = refl
  join-chunks_on (suc fuel) n (x ∷ xs) h k =
      let shorter : length (drop n (x ∷ xs)) ≤ fuel = omega (arith, length-drop n (x ∷ xs)) in
      rw (join-chunks_on fuel n (drop n (x ∷ xs)) shorter k) (take-append-drop n (x ∷ xs))

-- `contains` of a set of numbers.
abbrev pub mem : ℕ → List ℕ → Bool
mem a [] = false
mem a (x ∷ xs) = a == x || mem a xs

unfoldable pub count : ℕ → List ℕ → ℕ
count a [] = 0
count a (x ∷ xs) = (if a == x then 1 else 0) + count a xs

-- `retain(|x| x != a)`.
unfoldable pub retain_ne : ℕ → List ℕ → List ℕ
retain_ne a [] = []
retain_ne a (x ∷ xs) = let rest = retain_ne a xs in if x == a then rest else x ∷ rest

pub count-nil : (a : ℕ) → count a [] ≡ 0
unfolding count
count-nil a = refl

pub count-cons : (a x : ℕ) (xs : List ℕ) → count a (x ∷ xs) ≡ (if a == x then 1 else 0) + count a xs
unfolding count
count-cons a x xs = refl

pub count-push :
    (a x : ℕ) (xs : List ℕ) → count a (xs ++ x ∷ []) ≡ count a xs + (if a == x then 1 else 0)
unfolding count
count-push a x [] = omega arith
count-push a x (y ∷ xs) = omega (arith, count-push a x xs)

pub count-append : (a : ℕ) (xs ys : List ℕ) → count a (xs ++ ys) ≡ count a xs + count a ys
unfolding count
count-append a [] ys = omega arith
count-append a (x ∷ xs) ys = omega (arith, count-append a xs ys)

pub count-retain_ne :
    (a b : ℕ) (xs : List ℕ) → count a (retain_ne b xs) ≡ (if a == b then 0 else count a xs)
unfolding count retain_ne
count-retain_ne a b [] = ground arith
count-retain_ne a b (x ∷ xs) = ground (arith, count-retain_ne a b xs)

-- What a set holds stands in every longer list.
pub count-append-pos : (a : ℕ) (xs ys : List ℕ) → mem a xs ≡ true → 1 ≤ count a (xs ++ ys)
unfolding count
count-append-pos a [] ys h = cc
count-append-pos a (x ∷ xs) ys h = ground (arith, count-append-pos a xs ys)

pub mem-append : (a : ℕ) (xs ys : List ℕ) → mem a (xs ++ ys) ≡ (mem a xs || mem a ys)
mem-append a [] ys = refl
mem-append a (x ∷ xs) ys = ground (arith, mem-append a xs ys)

pub mem-eq-false : (a : ℕ) (xs : List ℕ) → count a xs ≡ 0 → mem a xs ≡ false
unfolding count
mem-eq-false a [] h = refl
mem-eq-false a (x ∷ xs) h = ground (arith, mem-eq-false a xs)

pub count-eq-zero : (a : ℕ) (xs : List ℕ) → mem a xs ≡ false → count a xs ≡ 0
unfolding count
count-eq-zero a [] h = refl
count-eq-zero a (x ∷ xs) h = ground (arith, count-eq-zero a xs)

-- `HashSet::insert` and `extend`: a set is a list without repetitions.
abbrev pub set_insert : ℕ → List ℕ → List ℕ
set_insert a xs = if mem a xs then xs else a ∷ xs

unfoldable pub set_extend : List ℕ → List ℕ → List ℕ
set_extend xs [] = xs
set_extend xs (a ∷ bs) = set_extend (set_insert a xs) bs

pub mem-set_extend : (a : ℕ) (xs ys : List ℕ) → mem a (set_extend xs ys) ≡ (mem a xs || mem a ys)
unfolding set_extend
mem-set_extend a xs [] = ground arith
mem-set_extend a xs (y ∷ ys) = ground (arith, mem-set_extend a (set_insert y xs) ys)

-- The entries of `xs` that `seen` does not have.
unfoldable pub count_unseen : List ℕ → List ℕ → ℕ
count_unseen seen [] = 0
count_unseen seen (x ∷ xs) = (if mem x seen then 0 else 1) + count_unseen seen xs

pub count_unseen-le : (seen xs : List ℕ) → count_unseen seen xs ≤ length xs
unfolding count_unseen
count_unseen-le seen [] = omega arith
count_unseen-le seen (x ∷ xs) = ground (arith, count_unseen-le seen xs)

pub count_unseen_mono :
    (a : ℕ) (seen xs : List ℕ) → count_unseen (a ∷ seen) xs ≤ count_unseen seen xs
unfolding count_unseen
count_unseen_mono a seen [] = omega arith
count_unseen_mono a seen (x ∷ xs) = ground (arith, count_unseen_mono a seen xs)

-- A new entry that `xs` has leaves fewer unseen.
pub count_unseen-insert :
    (a : ℕ) (seen xs : List ℕ)
    → mem a seen ≡ false
    → mem a xs ≡ true
    → count_unseen (a ∷ seen) xs + 1 ≤ count_unseen seen xs
unfolding count_unseen
count_unseen-insert a seen [] h m = cc
count_unseen-insert a seen (x ∷ xs) h m =
    ground (arith, count_unseen-insert a seen xs, count_unseen_mono a seen xs)

pub List-cases {ℓ} :
    {A : Type ℓ} (xs : List A) → (xs ≡ []) ⊎ ((x : A) × (rest : List A) × (xs ≡ x ∷ rest))
List-cases [] = inl refl
List-cases (x ∷ xs) = inr (x, xs, refl)
