-- ===== src/Timer/Time.antt =====
-- `struct timespec` of CLOCK_MONOTONIC, and the macro `timediff` of appf.h.
-- Both fields are numbers, since that clock does not run below 0.

use libappf.Base.Int.{◌+ℤ◌, pos, ℤ, sub_ℕ, ltb_ℤ}
use libappf.Base.{
  if◌then◌else◌, leb, ◌/◌, ℕ, ◌*◌, ltb, ◌-◌, ◌+◌, Bool, true, ◌≡◌, false, ◌≤◌, ◌<◌, arith,
}

pub record Timespec : Type 0 where
  pub sec : ℕ
  pub nsec : ℕ

-- C's `(x - y) / 1000000` for `long`, which cuts towards 0.
pub quot_ms : ℕ → ℕ → ℤ
quot_ms x y = if leb y x then pos ((x - y) / 1_000_000) else sub_ℕ 0 ((y - x) / 1_000_000)

-- `timediff( x, y )`, in milliseconds: 0 where `x` is in an earlier second, and 0 where it lies more
-- than 100000000 seconds ahead.
unfoldable pub timediff : Timespec → Timespec → ℤ
unfolding quot_ms
timediff x y =
    if ltb x.sec y.sec
    then pos 0
    else if ltb 100_000_000 (x.sec - y.sec)
    then pos 0
    else pos ((x.sec - y.sec) * 1000) +ℤ quot_ms x.nsec y.nsec

-- The test `timediff( x, y ) <= 0`, by which a timer goes in front of another and is taken as expired.
unfoldable pub not_after : Timespec → Timespec → Bool
unfolding timediff
not_after x y = if ltb_ℤ (pos 0) (timediff x y) then false else true

-- The time in nanoseconds.
abbrev pub ns : Timespec → ℕ
ns t = t.sec * 1_000_000_000 + t.nsec

-- `af_timer_start` leaves the nanoseconds in this range: the full second itself is not carried.
abbrev pub IsTime : Timespec → Type 0
IsTime t = t.nsec ≤ 1_000_000_000

-- The two are within the span that `timediff` measures.
abbrev pub Near : Timespec → Timespec → Type 0
Near x y = (x.sec ≤ y.sec + 100_000_000) × (y.sec ≤ x.sec + 100_000_000)

-- The test holds in one direction at least.
pub not_after_total : (x y : Timespec) → not_after x y ≡ false → not_after y x ≡ true
unfolding not_after ◌+ℤ◌
not_after_total x y h = ground arith

-- A time that fails the test is later.
pub lt-of-not_after : (x y : Timespec) → IsTime x → IsTime y → not_after x y ≡ false → ns y < ns x
unfolding not_after ◌+ℤ◌
lt-of-not_after x y hx hy h = ground arith

-- A time that passes it is earlier, or less than a millisecond later.
pub lt-of-not_after-true :
    (x y : Timespec)
    → IsTime x
    → IsTime y
    → Near x y
    → not_after x y ≡ true
    → ns x < ns y + 1_000_000
unfolding not_after ◌+ℤ◌
lt-of-not_after-true x y hx hy near h = ground arith
