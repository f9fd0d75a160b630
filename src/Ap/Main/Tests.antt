-- ===== src/Ap/Main/Tests.antt =====
-- Two rounds; the second meter's message comes too late for the first and is lost for the second.
use dlms_access_point.Prelude.{codes, ◌≡◌, [], ◌∷◌, arith, refl}
use dlms_access_point.Client.Sample.{sample_library, fresh, Engine}
use dlms_access_point.Client.Outcome.{returned, Ends}
use dlms_access_point.Client.Session.Open.{Throws}
use dlms_access_point.Client.Session.{is_linked, associated}
use dlms_access_point.Ap.Config.{Payload, large, clear, initial}
use dlms_access_point.Ap.Readings.{print_readings}
use dlms_access_point.Ap.Main.{Arrivals, deliver_all, round, size_at, run}
use dlms_access_point.Ap.Main.Laws.{run-Reported, Reported, RoundReported, quiet, round-round}

abbrev late : Arrivals
late = record { early = codes "small,a" ∷ []; before = []; during = (codes "large,a,b" ∷ []) ∷ [] }

abbrev unset : Engine → Payload
unset e = large

round-round_example :
    Ends
      (Throws sample_library)
      (λ (e', c', report).
        RoundReported sample_library unset initial late (e', c', report)
        × (round sample_library unset 400 c' (quiet sample_library unset []) e'
            ≡ returned (
              e',
              clear (deliver_all c' []),
              record { counted = 0; printed = print_readings [] },
            )))
      (round sample_library unset 400 initial late fresh)
unfolding is_linked associated
round-round_example =
    round-round sample_library unset (λ s h. h) 400 (omega arith) initial late [] fresh

quiet_size : (size_at initial [] 3 ≡ initial.payload_size) × (deliver_all initial [] ≡ initial)
unfolding size_at deliver_all
quiet_size = (refl, refl)

-- Two rounds of the loop.
run-Reported_example :
    Ends
      (Throws sample_library)
      (λ r. Reported initial (late ∷ late ∷ []) r.2)
      (run sample_library unset 400 initial (late ∷ late ∷ []) fresh)
unfolding is_linked associated
run-Reported_example =
    run-Reported sample_library unset (λ s h. h) 400 (omega arith) initial (late ∷ late ∷ []) fresh
