-- ===== src/Meter/Simulator/Tests.antt =====
-- A meter that registers at the second try, listens once, and then loses its port.
use dlms_access_point.Prelude.{◌≡◌, refl, true, false, List, [], ◌∷◌}
use dlms_access_point.Meter.Simulator.{
  Round, new, run, step, what, registered_with, meter_listening, failed_to_listen,
}
use dlms_access_point.Meter.Simulator.Laws.{
  total, says_registered, says_listening, tries, served_after, run-new,
}

abbrev rounds : List Round
rounds =
    record { connects = false; writes = false; opens = true }
    ∷ record { connects = true; writes = true; opens = true }
    ∷ record { connects = true; writes = true; opens = true }
    ∷ record { connects = true; writes = true; opens = false }
    ∷ []

run-rounds :
    (run new rounds).output
    ≡ what ∷ registered_with ∷ registered_with ∷ meter_listening ∷ meter_listening
      ∷ failed_to_listen ∷ []
unfolding run new step
run-rounds = refl

run-new_example :
    let m = run new rounds in
    (total says_registered m.output ≡ tries rounds)
    × (total says_listening m.output ≡ served_after rounds)
run-new_example = run-new rounds
