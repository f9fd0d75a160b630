-- ===== src/Meter/Disconnect/Tests.antt =====
-- Runs of the disconnect object.
use dlms_access_point.Prelude.{◌≡◌, refl, true, false, some, List, [], ◌∷◌}
use dlms_access_point.Meter.Cosem.{DataAccessResult, boolean, number}
use dlms_access_point.Meter.Sample.{sample_library}
use dlms_access_point.Meter.Disconnect.{
  attr_output_state, attr_control_state, connected, new, internal_get, Request, gets, sets, acts,
  step, run,
}
use dlms_access_point.Meter.Disconnect.Laws.{switched, internal_get-run}

-- Switched off, then asked to change its mode.
abbrev history : List (Request sample_library)
history = acts 1 ∷ sets 4 (0 ∷ []) ∷ gets 2 ∷ []

off_but_connected :
    (internal_get sample_library (run sample_library new history) 2
      ≡ (DataAccessResult.success, some (boolean false)))
    × (internal_get sample_library (run sample_library new history) 3
        ≡ (DataAccessResult.success, some (number 1)))
unfolding internal_get run step new
off_but_connected = (refl, refl)

internal_get-run_example :
    (internal_get sample_library (run sample_library new history) attr_output_state
      ≡ (DataAccessResult.success, some (boolean (switched sample_library true history))))
    × (internal_get sample_library (run sample_library new history) attr_control_state
        ≡ (DataAccessResult.success, some (number connected)))
internal_get-run_example = internal_get-run sample_library history
