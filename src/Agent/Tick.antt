-- ===== src/Agent/Tick.antt =====
-- `IdleFromTickCount` of internal/agent/sources.go: idle time from two readings of a millisecond
-- counter of 32 bits that wraps.
use screwlogger.Base.{ℕ, ◌+◌, ◌-◌, ◌^◌, ◌%◌, ◌≤◌, ◌<◌, ◌≡◌, arith, leb, if◌then◌else◌}

-- `uint32` arithmetic
abbrev pub tick_mod : ℕ
tick_mod = 2 ^ 32

-- `delta`, in milliseconds; the result of the function is a thousandth of it.
unfoldable pub idle_ticks : ℕ → ℕ → ℕ
idle_ticks now last =
    if leb last now
    then (now + tick_mod - last) % tick_mod
    else ((0xFFFF_FFFF + tick_mod - last) % tick_mod + now + 1) % tick_mod

-- Whatever the counter shows, and however often it has wrapped: for an input at the time `last` and
-- a reading at the time `now`, less than 2^32 milliseconds later, the idle time is exact.
pub idle_ticks_lem :
    (now last : ℕ)
    → last ≤ now
    → now < last + tick_mod
    → idle_ticks (now % tick_mod) (last % tick_mod) ≡ now - last
unfolding idle_ticks
idle_ticks_lem now last h k = ground arith
