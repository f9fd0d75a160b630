-- ===== src/Meter/Device/Tests.antt =====
-- A request that reaches the disconnect object of a device.
use dlms_access_point.Prelude.{ℕ, ◌≡◌, refl, false, some, none, [], ◌∷◌}
use dlms_access_point.Meter.Cosem.{temporary_failure, object_unavailable, ActionResult, returned}
use dlms_access_point.Meter.Sample.{sample_library}
use dlms_access_point.Meter.Disconnect as DisconnectClass
use dlms_access_point.Meter.Device.{Object, Server, acts, new, run, step, action, action_of}

-- Every request reaches the disconnect object.
abbrev one_object : Server sample_library ℕ
one_object = record {
  value_group = λ id i. id;
  find = λ ks class_id id. some Object.disconnect;
  other_get = λ c a id. (object_unavailable, none);
  other_set = λ c a id v. temporary_failure;
  other_action = λ c m id p. returned ActionResult.object_unavailable;
}

run-acts :
    (run sample_library one_object (new sample_library [] []) (acts 70 1 0 none ∷ [])).disconnect
    ≡ record DisconnectClass.new { is_connected = false }
unfolding run step action action_of new DisconnectClass.internal_action DisconnectClass.new
run-acts = refl
