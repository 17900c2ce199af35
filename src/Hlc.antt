-- ===== src/Hlc.antt =====
-- src/filesystem/tree/hlc.rs: the hybrid logical clock. The wall clock, in milliseconds, is the
-- argument `now`. A shift is a product or a quotient by 2 ^ 16, a mask is a remainder, and `|` is
-- `+`, since its two operands have no bit in common.
pub mod Order
use edfs.Prelude.{
  ℕ, ◌+◌, ◌*◌, ◌/◌, ◌%◌, ◌^◌, max, Bool, true, false, ltb, ◌==◌, if◌then◌else◌, add_u64, u64_mod,
}

abbrev pub logical_bits : ℕ
logical_bits = 16

pub record HybridLogicalClock : Type 0 where
  pub physical : ℕ
  pub logical : ℕ

unfoldable pub new : HybridLogicalClock
new = record { physical = 0; logical = 0 }

-- `(physical << LOGICAL_BITS) | (logical & LOGICAL_MASK)`.
unfoldable pub pack : HybridLogicalClock → ℕ
pack c = c.physical * 2 ^ logical_bits % u64_mod + c.logical % 2 ^ logical_bits

unfoldable pub next : ℕ → HybridLogicalClock → HybridLogicalClock × ℕ
unfolding pack
next now c =
    let c' : HybridLogicalClock =
      if ltb c.physical now
      then record { physical = now; logical = 0 }
      else record c { logical = add_u64 c.logical 1 } in
    (c', pack c')

-- The `match` of `observe` on the two comparisons.
abbrev pub merge_logical : Bool → Bool → ℕ → ℕ → ℕ
merge_logical true true logical remote_logical = max logical remote_logical
merge_logical true false logical remote_logical = logical
merge_logical false true logical remote_logical = remote_logical
merge_logical false false logical remote_logical = 0

unfoldable pub observe : ℕ → ℕ → HybridLogicalClock → HybridLogicalClock
observe now remote c =
    let remote_physical : ℕ = remote / 2 ^ logical_bits in
    let remote_logical : ℕ = remote % 2 ^ logical_bits in
    let physical : ℕ = max (max now c.physical) remote_physical in
    record {
      physical = physical;
      logical =
          merge_logical (physical == c.physical) (physical == remote_physical) c.logical
            remote_logical;
    }
