-- ===== src/Tests/Clock.antt =====
-- The hybrid logical clock.
use edfs.Hlc.{HybridLogicalClock, pack, next, observe}
use edfs.Hlc.Order.{IsPackable, Ascending, issue, next-observe, issue-Ascending, next_overflow}
use edfs.Prelude.{◌*◌, ◌<◌, ◌≡◌, refl, arith, [], ◌∷◌}

abbrev clock : HybridLogicalClock
clock = record { physical = 5; logical = 2 }

abbrev full : HybridLogicalClock
full = record { physical = 5; logical = 65535 }

clock-IsPackable : IsPackable clock
clock-IsPackable = omega arith

next_wraps : (next 4 full).1 ≡ 5 * 65536
unfolding next
next_wraps = refl

next-observe_example :
    (400_000 < (next 5 (observe 5 400_000 clock)).1)
    × (pack clock < (next 5 (observe 5 400_000 clock)).1)
unfolding observe
next-observe_example =
    next-observe 5 5 400_000 clock clock-IsPackable (omega arith) (omega arith) (omega arith)
      (omega arith)

issue-Ascending_example : Ascending (pack clock) (issue (4 ∷ 6 ∷ 6 ∷ []) clock)
issue-Ascending_example =
    issue-Ascending (4 ∷ 6 ∷ 6 ∷ []) clock clock-IsPackable (omega arith) (omega arith)

next_overflow_example : (next 4 full).1 < pack full
next_overflow_example = next_overflow 4 full (omega arith) refl (omega arith)
