-- ===== src/Core/Timer.antt =====
-- src/core/LinuxSimpleTimer.{h,cpp}. Tick counts are `uint32_t`, so sums and differences are taken
-- modulo 2 ^ 32. The monotonic clock is an argument of each call that reads it.
pub mod Laws
mod Tests
use dlms_access_point.Prelude.{
  ℕ, ◌+◌, ◌-◌, ◌*◌, ◌/◌, ◌%◌, ◌^◌, ◌<◌, arith, Bool, true, false, ◌&&◌, leb, if◌then◌else◌,
}

-- `ISimpleTimer::TimerState`, by the three values that this file names.
pub data TimerState : Type 0 where
  idle running expired : TimerState

pub record Timer : Type 0 where
  pub state : TimerState
  pub duration : ℕ
  pub end : ℕ

-- `struct timespec`.
pub record Timespec : Type 0 where
  pub tv_sec : ℕ
  pub tv_nsec : ℕ

abbrev pub u32_mod : ℕ
u32_mod = 2 ^ 32

pub is_running : TimerState → Bool
is_running idle = false
is_running running = true
is_running expired = false

pub get_tick_count : Timespec → ℕ
get_tick_count ts = (ts.tv_sec * 1000 + ts.tv_nsec / 1000000) % u32_mod

pub new : Timer
new = record { state = idle; duration = 0; end = 0 }

pub initialize : Timer → ℕ → Timer
initialize t ms = record t { duration = ms }

pub start : Timer → Timespec → Timer
unfolding get_tick_count
start t ts = record t { state = running; end = (get_tick_count ts + t.duration) % u32_mod }

pub stop : Timer → Timer
stop t = record t { state = idle }

pub is_expired : Timer → Timespec → Timer × Bool
unfolding is_running get_tick_count
is_expired t ts =
    if is_running t.state && leb t.end (get_tick_count ts)
    then (record t { state = expired }, true)
    else (t, false)

pub remaining_time : Timer → Timespec → ℕ
unfolding is_running get_tick_count
remaining_time t ts =
    if is_running t.state then (get_tick_count ts + u32_mod - t.end) % u32_mod else 0

pub get_tick_count-lt : (ts : Timespec) → get_tick_count ts < u32_mod
unfolding get_tick_count
get_tick_count-lt ts = omega arith
