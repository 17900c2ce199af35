-- ===== src/Hlc/Order.antt =====
-- Timestamps grow, as long as the logical part has room.
use edfs.Hlc.{HybridLogicalClock, pack, next, observe}
use edfs.Prelude.{ℕ, ◌+◌, ◌-◌, ◌^◌, ◌≤◌, ◌<◌, ◌≡◌, List, [], ◌∷◌, All, length, arith}

-- The physical part survives the shift. (2 ^ 48 milliseconds are 8,900 years.)
pub record IsPackable (c : HybridLogicalClock) : Type 0 where
  pub physical : c.physical < 2 ^ 48
  pub logical : c.logical < 2 ^ 16

-- While the counter has room, the next timestamp is greater than that of the clock's state, and the
-- counter grows by at most one.
pub pack-lt-next :
    (now : ℕ) (c : HybridLogicalClock)
    → IsPackable c
    → now < 2 ^ 48
    → c.logical + 1 < 2 ^ 16
    → (pack c < (next now c).1)
      × IsPackable (next now c).0
      × ((next now c).0.logical ≤ c.logical + 1)
      × (pack (next now c).0 ≡ (next now c).1)
unfolding next
pack-lt-next now c p fits room = ground arith

-- After an observation the clock is behind neither its old state nor the remote timestamp.
pub observe-le :
    (now remote : ℕ) (c : HybridLogicalClock)
    → IsPackable c
    → now < 2 ^ 48
    → remote < 2 ^ 64
    → (pack c ≤ pack (observe now remote c))
      × (remote ≤ pack (observe now remote c))
      × IsPackable (observe now remote c)
unfolding observe pack
observe-le now remote c p fits word = ground arith

-- From readings, a remote timestamp and a state that are in range, a timestamp issued after an
-- observation is greater than the remote timestamp and than that of the
-- old state, while the counter has room.
pub next-observe :
    (now now' remote : ℕ) (c : HybridLogicalClock)
    → IsPackable c
    → now < 2 ^ 48
    → now' < 2 ^ 48
    → remote < 2 ^ 64
    → (observe now remote c).logical + 1 < 2 ^ 16
    → (remote < (next now' (observe now remote c)).1)
      × (pack c < (next now' (observe now remote c)).1)
next-observe now now' remote c p fits fits' word room =
    let (own, other, p') = observe-le now remote c p fits word in
    let (later, _, _, _) = pack-lt-next now' (observe now remote c) p' fits' room in
    (omega arith, omega arith)

-- The timestamps of successive calls of `next`, one for each reading of the wall clock.
pub issue : List ℕ → HybridLogicalClock → List ℕ
issue [] c = []
issue (now ∷ nows) c = (next now c).1 ∷ issue nows (next now c).0

abbrev pub Ascending : ℕ → List ℕ → Type 0
Ascending bound [] = Unit
Ascending bound (t ∷ ts) = (bound < t) × Ascending t ts

-- However the wall clock moves, fewer than 2 ^ 16 - logical successive timestamps strictly ascend.
pub issue-Ascending :
    (nows : List ℕ) (c : HybridLogicalClock)
    → IsPackable c
    → All (λ now. now < 2 ^ 48) nows
    → c.logical + length nows < 2 ^ 16
    → Ascending (pack c) (issue nows c)
unfolding issue
issue-Ascending [] c p fit room = tt
issue-Ascending (now ∷ nows) c p fit room =
    let (later, p', step, same) = pack-lt-next now c p fit.0 (omega arith) in
    (later, rw (← same) (issue-Ascending nows (next now c).0 p' fit.1 (omega arith)))

-- The bug: a counter that is full starts again at 0 without a carry, so the next timestamp within
-- the same millisecond, or while the wall clock is behind, is smaller.
pub next_overflow :
    (now : ℕ) (c : HybridLogicalClock)
    → c.physical < 2 ^ 48
    → c.logical ≡ 2 ^ 16 - 1
    → now ≤ c.physical
    → (next now c).1 < pack c
unfolding next pack
next_overflow now c p full behind = ground arith
