-- ===== src/Prelude/Errors.antt =====
-- Results of fallible code, and code that changes a state and may fail.

-- `panic` stands for a Rust panic: an `unwrap` on `None`, a slice out of range.
pub data Result {ℓ κ} (E : Type ℓ) (A : Type κ) : Type (ℓ ⊔ κ) where
  ok : A → Result E A
  err : E → Result E A
  panic : Result E A
