-- ===== src/Core/Timer/Laws.antt =====
-- What a timer of Core/Timer.antt reports as its clock advances, by one call and over a history.
use dlms_access_point.Prelude.{
  ℕ, ◌+◌, ◌-◌, ◌≡◌, ◌≤◌, ◌<◌, ◌↔◌, true, arith, List, [], ◌∷◌, if◌then◌else◌,
}
use dlms_access_point.Core.Timer.{
  Timer, Timespec, u32_mod, is_running, get_tick_count, get_tick_count-lt, new, initialize, start,
  stop, is_expired, remaining_time,
}

-- A timer started at a tick count to which its duration can be added without wrapping round is
-- reported expired exactly when its whole duration has passed.
is_expired-start :
    (t : Timer) (ms : ℕ) (begin now : Timespec)
    → get_tick_count begin + ms < u32_mod
    → ((is_expired (start (initialize t ms) begin) now).1 ≡ true)
      ↔ (get_tick_count begin + ms ≤ get_tick_count now)
unfolding is_expired start initialize
is_expired-start t ms begin now h = (λ e. ground arith, λ le. ground arith)

-- A timer whose end lies beyond the wrap of the 32-bit tick count is reported expired at the very
-- tick at which it was started, although none of its duration has passed.
is_expired_wrapped :
    (t : Timer) (ms : ℕ) (begin : Timespec)
    → ms < u32_mod
    → u32_mod ≤ get_tick_count begin + ms
    → (is_expired (start (initialize t ms) begin) begin).1 ≡ true
unfolding is_expired start initialize
is_expired_wrapped t ms begin h w = ground (arith, get_tick_count-lt begin)

-- While a started timer has time left, `remaining_time` answers the time left taken from 2 ^ 32.
remaining_time_early :
    (t : Timer) (ms : ℕ) (begin now : Timespec)
    → get_tick_count begin + ms < u32_mod
    → get_tick_count now < get_tick_count begin + ms
    → remaining_time (start (initialize t ms) begin) now
      ≡ u32_mod - (get_tick_count begin + ms - get_tick_count now)
unfolding remaining_time start initialize
remaining_time_early t ms begin now h lt = ground arith

-- The calls of a client.
pub data Call : Type 0 where
  initializes : ℕ → Call
  starts : Timespec → Call
  stops : Call
  polls : Timespec → Call

-- The timer after a call, and the number of expiries that the call reported.
unfoldable pub step : Timer → Call → Timer × ℕ
unfolding initialize start stop is_expired
step t (initializes ms) = (initialize t ms, 0)
step t (starts ts) = (start t ts, 0)
step t stops = (stop t, 0)
step t (polls ts) = let (t', hit) = is_expired t ts in (t', if hit then 1 else 0)

unfoldable pub reports : Timer → List Call → ℕ
reports t [] = 0
reports t (c ∷ cs) = (step t c).1 + reports (step t c).0 cs

pub count_starts : List Call → ℕ
count_starts [] = 0
count_starts (initializes ms ∷ cs) = count_starts cs
count_starts (starts ts ∷ cs) = 1 + count_starts cs
count_starts (stops ∷ cs) = count_starts cs
count_starts (polls ts ∷ cs) = count_starts cs

-- A running timer may still report once.
credit : Timer → ℕ
unfolding is_running
credit t = if is_running t.state then 1 else 0

reports-le-credit : (t : Timer) (cs : List Call) → reports t cs ≤ credit t + count_starts cs
unfolding reports step credit count_starts
reports-le-credit t [] = omega arith
reports-le-credit t (initializes ms ∷ cs) = ground (arith, reports-le-credit (initialize t ms) cs)
reports-le-credit t (starts ts ∷ cs) = ground (arith, reports-le-credit (start t ts) cs)
reports-le-credit t (stops ∷ cs) = ground (arith, reports-le-credit (stop t) cs)
reports-le-credit t (polls ts ∷ cs) = ground (arith, reports-le-credit (is_expired t ts).0 cs)

-- Over any history of calls on a new timer, it is reported expired at most once for each start.
pub reports-le-count_starts : (cs : List Call) → reports new cs ≤ count_starts cs
unfolding credit new
reports-le-count_starts cs = omega (arith, reports-le-credit new cs)
