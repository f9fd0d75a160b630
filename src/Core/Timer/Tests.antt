-- ===== src/Core/Timer/Tests.antt =====
-- Runs of a timer at concrete clock readings.
use dlms_access_point.Prelude.{ℕ, ◌≡◌, refl, [], ◌∷◌, ◌*◌}
use dlms_access_point.Core.Timer.{Timespec, get_tick_count, new, is_running}
use dlms_access_point.Core.Timer.Laws.{initializes, starts, polls, reports, step}

-- The reading `ms` milliseconds after boot.
abbrev reading : ℕ → ℕ → Timespec
reading s ms = record { tv_sec = s; tv_nsec = ms * 1000000 }

two_polls :
    reports new (
      initializes 250
      ∷ starts (reading 1 0)
      ∷ polls (reading 1 249)
      ∷ polls (reading 1 250)
      ∷ polls (reading 2 0)
      ∷ [])
    ≡ 1
unfolding reports step new is_running get_tick_count
two_polls = refl
