-- ===== src/Meter/Schema/Tests.antt =====
-- Runs of the declared classes.
use dlms_access_point.Prelude.{
  ℕ, ◌==◌, if◌then◌else◌, ◌≡◌, refl, true, Option, none, some, List, [], ◌∷◌,
}
use dlms_access_point.Meter.Sample.{sample_library}
use dlms_access_point.Meter.Disconnect
use dlms_access_point.Meter.Disconnect.{Request, sets, acts, Disconnect}
use dlms_access_point.Meter.ImageTransfer
use dlms_access_point.Meter.Schema.{
  disconnect_attributes, image_transfer_attributes, attr_image_to_activate_info,
  image_transfer_methods, Member,
}
use dlms_access_point.Meter.Schema.Laws.{
  schema_of, is_typed, is_typed-disconnect, is_typed-image_transfer,
}

abbrev history : List (Request sample_library)
history = acts 1 ∷ sets 4 (6 ∷ []) ∷ acts 2 ∷ []

is_typed-disconnect_example :
    is_typed (schema_of disconnect_attributes 3) (
      Disconnect.internal_get sample_library
        (Disconnect.run sample_library Disconnect.new history)
        3)
    ≡ true
is_typed-disconnect_example = is_typed-disconnect sample_library history 3

abbrev upgrade : List (ℕ × Option (List ℕ))
upgrade = (1, some (7 ∷ 200 ∷ [])) ∷ (4, none) ∷ []

is_typed-image_transfer_example :
    is_typed
      (if 6 == attr_image_to_activate_info then none else schema_of image_transfer_attributes 6)
      (ImageTransfer.internal_get sample_library
        (ImageTransfer.run sample_library (ImageTransfer.new sample_library [] []) upgrade)
        6)
    ≡ true
is_typed-image_transfer_example = is_typed-image_transfer sample_library [] [] upgrade 6

-- Two methods are declared at one short-name offset.
abbrev offsets : List Member → List ℕ
offsets [] = []
offsets (m ∷ ms) = m.offset ∷ offsets ms

offsets_of_methods : offsets image_transfer_methods ≡ 0x40 ∷ 0x48 ∷ 0x40 ∷ 0x58 ∷ []
offsets_of_methods = refl
