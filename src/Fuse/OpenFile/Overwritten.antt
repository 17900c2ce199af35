-- ===== src/Fuse/OpenFile/Overwritten.antt =====
-- The bytes of a file after a write: those written at their place, zeros where the file grew.
use mathlib.Core.List.{append-nil}
use edfs.Domain.{Bytes}
use edfs.Prelude.{
  ℕ, ◌+◌, ◌-◌, ◌≤◌, ◌≡◌, refl, sym, ap, ap₂, ◌∙◌, min, max, Bool-cases, inl, inr, leb, [], ◌++◌,
  length, take, drop, slice, replicate, arith, length-append, length-take, length-drop,
  length-replicate, drop-drop, take-eq_self, drop-eq-nil, take-nil, slice-append, slice-eq-nil,
  slice_congr, slice-take,
}

-- The bytes from `lo` to `hi` of two strings joined, on one side of the seam.
slice-before :
    (lo hi : ℕ) (xs ys : Bytes) → hi ≤ length xs → slice lo hi (xs ++ ys) ≡ slice lo hi xs
slice-before lo hi xs ys h = elim (Bool-cases (leb lo hi)) [
  | inl ordered ↦
      slice-append lo hi xs ys (ground arith)
      ∙ ap₂ ◌++◌
          (slice_congr {lo = lo} {lo' = lo} {hi = min hi (length xs)} {hi' = hi} xs refl
            (omega arith))
          (slice-eq-nil (lo - length xs) (hi - length xs) ys (omega arith))
      ∙ append-nil (slice lo hi xs)
  | inr empty ↦
      slice-eq-nil lo hi (xs ++ ys) (ground arith) ∙ sym (slice-eq-nil lo hi xs (ground arith))
]

slice-after :
    (lo hi : ℕ) (xs ys : Bytes)
    → length xs ≤ lo
    → slice lo hi (xs ++ ys) ≡ slice (lo - length xs) (hi - length xs) ys
slice-after lo hi xs ys h = elim (Bool-cases (leb lo hi)) [
  | inl ordered ↦
      slice-append lo hi xs ys (ground arith)
      ∙ ap (λ p. p ++ slice (lo - length xs) (hi - length xs) ys)
          (slice-eq-nil lo (min hi (length xs)) xs (omega arith))
  | inr empty ↦
      slice-eq-nil lo hi (xs ++ ys) (ground arith)
      ∙ sym (slice-eq-nil (lo - length xs) (hi - length xs) ys (ground arith))
]

pub slice_beyond : (lo hi : ℕ) (xs : Bytes) → length xs ≤ lo → slice lo hi xs ≡ []
slice_beyond lo hi xs h = ap (take (hi - lo)) (drop-eq-nil lo xs h) ∙ take-nil (hi - lo)

-- The buffer before the write, with zeros up to the end of the write.
abbrev pub zero_filled : Bytes → ℕ → Bytes
zero_filled buffer write_end = buffer ++ replicate (write_end - length buffer) 0

module _ (buffer content : Bytes) (offset : ℕ) where
  abbrev pub end : ℕ
  end = offset + length content

  abbrev pub whole : Bytes
  whole = zero_filled buffer end

  pub length-whole : length whole ≡ max (length buffer) end
  length-whole = omega (
    arith,
    length-append buffer (replicate {A = ℕ} (end - length buffer) 0),
    length-replicate {A = ℕ} (end - length buffer) 0,
  )

  pub whole_long : length buffer ≡ length whole → buffer ≡ whole
  whole_long h =
      let none_added : end - length buffer ≡ 0 = omega (arith, length-whole) in
      sym (ap (λ k. buffer ++ replicate {A = ℕ} k 0) none_added ∙ append-nil buffer)

  -- The buffer after the write.
  abbrev pub overwritten : Bytes
  overwritten = take offset whole ++ (content ++ drop end whole)

  length-front : length (take offset whole) ≡ offset
  length-front = omega (arith, length-take offset whole, length-whole)

  pub slice_written : slice offset end overwritten ≡ content
  slice_written =
      slice-after offset end (take offset whole) (content ++ drop end whole)
        (omega (arith, length-front))
      ∙ slice_congr {lo = offset - length (take offset whole)} {lo' = 0}
          {hi = end - length (take offset whole)} {hi' = length content} (content ++ drop end whole)
          (omega (arith, length-front)) (omega (arith, length-front))
      ∙ slice-before 0 (length content) content (drop end whole) (omega arith)
      ∙ take-eq_self (length content - 0) content (omega arith)

  pub slice_front : (lo hi : ℕ) → hi ≤ offset → slice lo hi overwritten ≡ slice lo hi whole
  slice_front lo hi h =
      slice-before lo hi (take offset whole) (content ++ drop end whole)
        (omega (arith, length-front))
      ∙ slice-take lo hi offset whole
      ∙ slice_congr {lo = lo} {lo' = lo} {hi = min hi offset} {hi' = hi} whole refl (omega arith)

  -- Behind the write there are no zeros.
  unfilled : (lo hi : ℕ) → end ≤ lo → slice lo hi whole ≡ slice lo hi buffer
  unfilled lo hi h = elim (Bool-cases (leb end (length buffer))) [
    | inl long ↦ ap (slice lo hi) (sym (whole_long (ground (arith, length-whole))))
    | inr short ↦
        slice_beyond lo hi whole (ground (arith, length-whole))
        ∙ sym (slice_beyond lo hi buffer (ground arith))
  ]

  pub slice_back : (lo hi : ℕ) → end ≤ lo → slice lo hi overwritten ≡ slice lo hi buffer
  slice_back lo hi h =
      slice-after lo hi (take offset whole) (content ++ drop end whole)
        (omega (arith, length-front))
      ∙ slice-after (lo - length (take offset whole)) (hi - length (take offset whole)) content
          (drop end whole) (omega (arith, length-front))
      ∙ slice_congr {lo = lo - length (take offset whole) - length content} {lo' = lo - end}
          {hi = hi - length (take offset whole) - length content} {hi' = hi - end} (drop end whole)
          (omega (arith, length-front)) (omega (arith, length-front))
      ∙ ap (take (hi - end - (lo - end))) (drop-drop (lo - end) end whole)
      ∙ ap₂ (λ n k. take n (drop k whole))
          (let e : hi - end - (lo - end) ≡ hi - lo = omega arith in e)
          (let e : end + (lo - end) ≡ lo = omega arith in e)
      ∙ unfilled lo hi h

  pub length-overwritten : length overwritten ≡ max (length buffer) end
  length-overwritten = omega (
    arith,
    length-front,
    length-append (take offset whole) (content ++ drop end whole),
    length-append content (drop end whole),
    length-drop end whole,
    length-whole,
  )
