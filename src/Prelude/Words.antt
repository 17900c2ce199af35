-- ===== src/Prelude/Words.antt =====
-- `u64` and `usize` (64 bits): the operations that can leave the range, as a release build does
-- them.
use Prim.Native.Nat.{ℕ, ◌+◌, ◌-◌, ◌%◌, ◌^◌, min}
use edfs.Prelude.Tests.{leb, if◌then◌else◌}

abbrev pub u64_mod : ℕ
u64_mod = 2 ^ 64

abbrev pub u64_max : ℕ
u64_max = 2 ^ 64 - 1

-- `a + b`, which wraps.
abbrev pub add_u64 : ℕ → ℕ → ℕ
add_u64 a b = (a + b) % u64_mod

-- `a - b`, which wraps below 0.
abbrev pub sub_u64 : ℕ → ℕ → ℕ
sub_u64 a b = if leb b a then a - b else a + u64_mod - b

abbrev pub saturating_add : ℕ → ℕ → ℕ
saturating_add a b = min (a + b) u64_max

abbrev pub saturating_sub : ℕ → ℕ → ℕ
saturating_sub a b = a - b

-- A vector holds fewer bytes than this; a request for more panics (`isize::MAX` and "capacity overflow").
abbrev pub capacity_limit : ℕ
capacity_limit = 2 ^ 63
