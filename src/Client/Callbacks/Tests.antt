-- ===== src/Client/Callbacks/Tests.antt =====
-- A history of callbacks, with a small decoder in the library's place.
use dlms_access_point.Prelude.{
  Text, codes, pos, ◌≡◌, refl, take, length, map, true, some, List, [], ◌∷◌,
}
use dlms_access_point.Client.Confirm.{Codec, Engine, access_result, vector}
use dlms_access_point.Client.Callbacks.{
  Event, opened, got, has_set, released, aborted, ap_on_event, hes_on_event, harness_on_event, run,
}
use dlms_access_point.Client.Callbacks.Laws.{SameRun, no_objects, run-programs}
use dlms_access_point.Client.Callbacks.Recent.{latest, accepts, run-latest, carried}

abbrev sample_codec : Codec
sample_codec = record {
  Vector = Text;
  Value = Text;
  next_value = λ v. some v;
  visible_string = λ v. some v;
  is_sequence = λ v. true;
  partners = λ v. some (pos 1, 1);
  gets_sequence = λ v. true;
  sizeof_sequence = 24;
  invalid_address = 65535;
}

abbrev idle : Engine
idle = record { recent = codes "old"; traced = []; printed = [] }

-- An association, a reading, an access error, the partners, and the end.
abbrev history : List (Event sample_codec)
history =
    opened 1
    ∷ got 1 (record {
      result_valid = true;
      result = vector (codes "ff");
      class_id = 1;
      attribute_id = 2;
    })
    ∷ got 2
        (record { result_valid = true; result = access_result 4; class_id = 1; attribute_id = 2 })
    ∷ got 3 (record {
      result_valid = true;
      result = vector (codes "x");
      class_id = 15;
      attribute_id = 3;
    })
    ∷ has_set 4 (record { result_valid = true; result = 0 })
    ∷ released
    ∷ aborted 65535
    ∷ []

latest-history : latest sample_codec idle.recent history ≡ codes "ff"
unfolding latest carried
latest-history = refl

run-latest_example :
    let r = run sample_codec (ap_on_event sample_codec) idle history in
    (r.0.recent ≡ latest sample_codec idle.recent (take (length r.1) history))
    × (r.1 ≡ map (accepts sample_codec) (take (length r.1) history))
run-latest_example = run-latest sample_codec idle history

run-programs_example :
    SameRun sample_codec
      (run sample_codec (ap_on_event sample_codec) idle history)
      (run sample_codec (hes_on_event sample_codec) idle history)
    × SameRun sample_codec
        (run sample_codec (harness_on_event sample_codec) idle history)
        (run sample_codec (hes_on_event sample_codec) idle history)
unfolding no_objects
run-programs_example =
    run-programs sample_codec idle idle idle history refl refl
      (refl, (refl, (refl, (refl, (refl, (refl, (refl, tt)))))))
