-- ===== src/Ap/Config/Tests.antt =====
-- Runs of the configuration.
use dlms_access_point.Prelude.{
  replicate, Text, codes, ◌≡◌, refl, ◌≢◌, false, some, List, [], ◌∷◌, arith,
}
use dlms_access_point.Ap.Config.{
  getline, read_items, payload_of, small, medium, large, made, range_error, all_of_isprint,
  construct, interpret, initial,
}
use dlms_access_point.Ap.Config.Parse.{Reads, construct_sound}
use dlms_access_point.Ap.Config.RoundTrip.{interpret-meterset}
use dlms_access_point.Ap.Config.Delivery.{reads, run, run-ne_of_long}
use dlms_access_point.Hes.Message
use dlms_access_point.Hes.Message.{meterset}

three_meters :
    construct (codes "medium,a,,b,")
    ≡ made (record { payload_size = some medium; meters = codes "a" ∷ [] ∷ codes "b" ∷ [] })
unfolding construct all_of_isprint getline read_items payload_of
three_meters = refl

bad_size : construct (codes "R") ≡ range_error (codes "invalid Payload size")
unfolding construct all_of_isprint getline read_items payload_of
bad_size = refl

bad_byte : construct (codes "small,a\n") ≡ range_error (codes "invalid string")
unfolding construct all_of_isprint
bad_byte = refl

abbrev two_names : List Text
two_names = codes "fd00::2" ∷ codes "fd00::3" ∷ []

abbrev long_name : Text
long_name = replicate 1020 b'a'

construct_sound_example :
    Reads (codes "large,x,") (record { payload_size = some large; meters = codes "x" ∷ [] })
unfolding construct all_of_isprint getline read_items payload_of
construct_sound_example = construct_sound (codes "large,x,") _ refl

interpret-meterset_example :
    interpret initial (meterset Message.Payload.large two_names)
    ≡ record { payload_size = some large; meters = two_names }
unfolding all_of_isprint
interpret-meterset_example =
    interpret-meterset initial Message.Payload.large two_names
      (((cc), omega arith, refl), (((cc), omega arith, refl), tt))

run-ne_of_long_example :
    run initial (reads false (meterset Message.Payload.small (long_name ∷ [])) 1024 ∷ [])
    ≢ record { payload_size = some small; meters = long_name ∷ [] }
unfolding meterset
run-ne_of_long_example =
    run-ne_of_long Message.Payload.small (long_name ∷ [])
      (reads false (meterset Message.Payload.small (long_name ∷ [])) 1024 ∷ []) (omega arith)
      (omega arith)
