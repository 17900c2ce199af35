-- ===== src/Prelude/Slices.antt =====
-- Slices `xs[lo..hi]`, and how they go through `++`, `take` and zero bytes.
use Prim.Native.Nat.{ℕ, zero, suc, ◌+◌, ◌-◌, ◌≤◌, min}
use mathlib.Core.Path.{◌≡◌, refl, ap, ap₂, ◌∙◌, sym, ◌≡⟨◌⟩◌, ◌∎}
use mathlib.Core.List.{List, [], ◌∷◌, ◌++◌}
use native.Mathlib.Omega.{arith}
use edfs.Prelude.Lists.{length, take, drop, replicate, length-drop, take-append-drop}

module _ {ℓ} {A : Type ℓ} where
  -- `xs[lo..hi]`. What is asked for beyond the end is left out; the code slices within the bounds.
  abbrev pub slice : ℕ → ℕ → List A → List A
  slice lo hi xs = take (hi - lo) (drop lo xs)

  pub take-nil : (n : ℕ) → take {A = A} n [] ≡ []
  take-nil zero = refl
  take-nil (suc n) = refl

  pub drop-nil : (n : ℕ) → drop {A = A} n [] ≡ []
  drop-nil zero = refl
  drop-nil (suc n) = refl

  pub take-eq_self : (n : ℕ) (xs : List A) → length xs ≤ n → take n xs ≡ xs
  take-eq_self n [] h = take-nil n
  take-eq_self zero (x ∷ xs) h = absurd (omega arith)
  take-eq_self (suc n) (x ∷ xs) h = ap (◌∷◌ x) (take-eq_self n xs (omega arith))

  pub drop-eq-nil : (n : ℕ) (xs : List A) → length xs ≤ n → drop n xs ≡ []
  drop-eq-nil n [] h = drop-nil n
  drop-eq-nil zero (x ∷ xs) h = absurd (omega arith)
  drop-eq-nil (suc n) (x ∷ xs) h = drop-eq-nil n xs (omega arith)

  -- Two counts that are one number.
  take_congr : {n m : ℕ} (xs : List A) → n ≡ m → take n xs ≡ take m xs
  take_congr xs e = ap (λ k. take k xs) e

  drop_congr : {n m : ℕ} (xs : List A) → n ≡ m → drop n xs ≡ drop m xs
  drop_congr xs e = ap (λ k. drop k xs) e

  pub take-append :
      (n : ℕ) (xs ys : List A) → take n (xs ++ ys) ≡ take n xs ++ take (n - length xs) ys
  take-append zero [] ys = refl
  take-append (suc n) [] ys = take_congr {n = suc n} {m = suc n - 0} ys (omega arith)
  take-append zero (x ∷ xs) ys = take_congr {n = 0} ys (omega arith)
  take-append (suc n) (x ∷ xs) ys =
      rw (take-append n xs ys)
        (ap (λ r. x ∷ take n xs ++ r) (take_congr {m = suc n - suc (length xs)} ys (omega arith)))

  pub drop-append :
      (n : ℕ) (xs ys : List A) → drop n (xs ++ ys) ≡ drop n xs ++ drop (n - length xs) ys
  drop-append zero [] ys = refl
  drop-append (suc n) [] ys = drop_congr {n = suc n} {m = suc n - 0} ys (omega arith)
  drop-append zero (x ∷ xs) ys =
      ap (λ r. x ∷ xs ++ r) (drop_congr {n = 0} {m = 0 - suc (length xs)} ys (omega arith))
  drop-append (suc n) (x ∷ xs) ys =
      rw (drop-append n xs ys)
        (ap (λ r. drop n xs ++ r) (drop_congr {m = suc n - suc (length xs)} ys (omega arith)))

  pub take-take : (n m : ℕ) (xs : List A) → take n (take m xs) ≡ take (min n m) xs
  take-take zero m xs = take_congr {n = 0} {m = min 0 m} xs (omega arith)
  take-take (suc n) zero xs = take_congr {n = 0} {m = min (suc n) 0} xs (omega arith)
  take-take (suc n) (suc m) [] = sym (take-nil (min (suc n) (suc m)))
  take-take (suc n) (suc m) (x ∷ xs) =
      rw (take-take n m xs)
        (take_congr {n = suc (min n m)} {m = min (suc n) (suc m)} (x ∷ xs) (omega arith))

  pub drop-take : (n m : ℕ) (xs : List A) → drop n (take m xs) ≡ take (m - n) (drop n xs)
  drop-take zero m xs = take_congr {m = m - 0} xs (omega arith)
  drop-take (suc n) zero xs = take_congr {n = 0} {m = 0 - suc n} (drop (suc n) xs) (omega arith)
  drop-take (suc n) (suc m) [] = sym (take-nil (suc m - suc n))
  drop-take (suc n) (suc m) (x ∷ xs) =
      rw (drop-take n m xs) (take_congr {n = m - n} {m = suc m - suc n} (drop n xs) (omega arith))

  pub drop-drop : (n m : ℕ) (xs : List A) → drop n (drop m xs) ≡ drop (m + n) xs
  drop-drop n zero xs = drop_congr {m = 0 + n} xs (omega arith)
  drop-drop n (suc m) [] = drop-nil n ∙ sym (drop-nil (suc m + n))
  drop-drop n (suc m) (x ∷ xs) =
      drop-drop n m xs ∙ drop_congr {n = suc (m + n)} {m = suc m + n} (x ∷ xs) (omega arith)

  -- A slice and what follows it.
  pub slice-append-drop :
      (lo hi : ℕ) (xs : List A) → lo ≤ hi → slice lo hi xs ++ drop hi xs ≡ drop lo xs
  slice-append-drop lo hi xs h =
      ap (◌++◌ (slice lo hi xs)) (
        drop_congr {n = hi} {m = lo + (hi - lo)} xs (omega arith) ∙ sym (drop-drop (hi - lo) lo xs))
      ∙ take-append-drop (hi - lo) (drop lo xs)

  pub take-length-min : (n : ℕ) (xs : List A) → take (min n (length xs)) xs ≡ take n xs
  take-length-min n xs =
      sym (take-take n (length xs) xs) ∙ ap (take n) (take-eq_self (length xs) xs (omega arith))

  pub slice-nil : (lo hi : ℕ) → slice lo hi [] ≡ []
  slice-nil lo hi = ap (take (hi - lo)) (drop-nil lo) ∙ take-nil (hi - lo)

  pub slice-eq-nil : (lo hi : ℕ) (xs : List A) → hi ≤ lo → slice lo hi xs ≡ []
  slice-eq-nil lo hi xs h = take_congr {n = hi - lo} {m = 0} (drop lo xs) (omega arith)

  pub slice-take : (lo hi n : ℕ) (xs : List A) → slice lo hi (take n xs) ≡ slice lo (min hi n) xs
  slice-take lo hi n xs =
      ap (take (hi - lo)) (drop-take lo n xs)
      ∙ take-take (hi - lo) (n - lo) (drop lo xs)
      ∙ take_congr {n = min (hi - lo) (n - lo)} {m = min hi n - lo} (drop lo xs) (omega arith)

  pub slice-length-min :
      (lo hi : ℕ) (xs : List A) → slice lo (min hi (length xs)) xs ≡ slice lo hi xs
  slice-length-min lo hi xs =
      take_congr {n = min hi (length xs) - lo} {m = min (hi - lo) (length (drop lo xs))}
        (drop lo xs) (omega (arith, length-drop lo xs))
      ∙ take-length-min (hi - lo) (drop lo xs)

  pub slice_congr :
      {lo lo' hi hi' : ℕ} (xs : List A) → lo ≡ lo' → hi ≡ hi' → slice lo hi xs ≡ slice lo' hi' xs
  slice_congr xs p q = ap₂ (λ l h. slice l h xs) p q

  pub slice-append :
      (lo hi : ℕ) (xs ys : List A)
      → lo ≤ hi
      → slice lo hi (xs ++ ys)
        ≡ slice lo (min hi (length xs)) xs ++ slice (lo - length xs) (hi - length xs) ys
  slice-append lo hi xs ys h =
      take (hi - lo) (drop lo (xs ++ ys))
      ≡⟨ ap (take (hi - lo)) (drop-append lo xs ys) ⟩
        take (hi - lo) (drop lo xs ++ drop (lo - length xs) ys)
      ≡⟨ take-append (hi - lo) (drop lo xs) (drop (lo - length xs) ys) ⟩
        take (hi - lo) (drop lo xs)
        ++ take (hi - lo - length (drop lo xs)) (drop (lo - length xs) ys)
      ≡⟨ ap₂ ◌++◌
          (sym (take-length-min (hi - lo) (drop lo xs))
            ∙ take_congr {m = min hi (length xs) - lo} (drop lo xs)
                (omega (arith, length-drop lo xs)))
          (take_congr {n = hi - lo - length (drop lo xs)} {m = hi - length xs - (lo - length xs)}
            (drop (lo - length xs) ys) (omega (arith, length-drop lo xs))) ⟩
        slice lo (min hi (length xs)) xs ++ slice (lo - length xs) (hi - length xs) ys ∎

  pub take-replicate : (n m : ℕ) (a : A) → take n (replicate m a) ≡ replicate (min n m) a
  take-replicate zero m a = ap (λ k. replicate k a) (let e : 0 ≡ min 0 m = omega arith in e)
  take-replicate (suc n) zero a =
      ap (λ k. replicate k a) (let e : 0 ≡ min (suc n) 0 = omega arith in e)
  take-replicate (suc n) (suc m) a =
      rw (take-replicate n m a)
        (ap (λ k. replicate k a) (let e : suc (min n m) ≡ min (suc n) (suc m) = omega arith in e))
