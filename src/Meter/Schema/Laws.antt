-- ===== src/Meter/Schema/Laws.antt =====
-- The answers of the two classes beside what they declare.
use dlms_access_point.Prelude.{
  is_elem, ℕ, ◌≡◌, true, List, arith, ◌==◌, if◌then◌else◌, false, Option, none, some, [], ◌∷◌, ltb,
  ◌^◌, Bool,
}
use dlms_access_point.Meter.Cosem.{
  Library, ActionResult, returned, DataAccessResult, success, object_unavailable, Item, boolean,
  number, octets, bits,
}
use dlms_access_point.Meter.Disconnect.{Request, Disconnect}
use dlms_access_point.Meter.Disconnect
use dlms_access_point.Meter.Disconnect.Laws.{run-IsFactory}
use dlms_access_point.Meter.ImageTransfer
use dlms_access_point.Meter.ImageTransfer.Laws.{run-Shows}
use dlms_access_point.Meter.Schema.{
  disconnect_attributes, attr_image_to_activate_info, image_transfer_attributes, disconnect_methods,
  image_transfer_methods, CosemType, boolean_type, integer_type, double_long_unsigned_type,
  bit_string_type, octet_string_type, enum_type, Schema, of_type, structure, Member,
}

pub schema_of : List Member → ℕ → Option Schema
schema_of [] id = none
schema_of (m ∷ ms) id = if m.member_id == id then some m.schema else schema_of ms id

-- Whether a number is one of a COSEM type.
fits_number : ℕ → CosemType → Bool
fits_number n boolean_type = false
fits_number n integer_type = false
fits_number n double_long_unsigned_type = ltb n (2 ^ 32)
fits_number n bit_string_type = false
fits_number n octet_string_type = false
fits_number n (enum_type values) = is_elem n values

module _ {BitSet : Type 0} where
  -- Whether an item is one of a schema. One item is never a structure.
  fits : Item BitSet → Schema → Bool
  unfolding fits_number
  fits i (structure fields) = false
  fits (boolean b) (of_type boolean_type) = true
  fits (bits b) (of_type bit_string_type) = true
  fits (octets bs) (of_type octet_string_type) = true
  fits (number n) (of_type t) = fits_number n t
  fits i s = false

  -- Whether an answer is the one that a class owes by its declarations: a success with an item of
  -- the attribute's schema, or that there is no such attribute.
  unfoldable pub is_typed : Option Schema → DataAccessResult × Option (Item BitSet) → Bool
  unfolding fits
  is_typed (some s) (success, some i) = fits i s
  is_typed none (object_unavailable, none) = true
  is_typed s r = false

module _ (lib : Library) where
  open lib use {Vector, BitSet}

  -- The disconnect object, after any requests since it was made, answers every GET as its
  -- declarations owe: with success and one item of the attribute's schema (a control state or mode
  -- that is enumerated, a Boolean), and with object_unavailable alone where no attribute is declared.
  pub is_typed-disconnect :
      (rs : List (Request lib)) (attr : ℕ)
      → is_typed
          (schema_of disconnect_attributes attr)
          (Disconnect.internal_get lib (Disconnect.run lib Disconnect.new rs) attr)
        ≡ true
  unfolding Disconnect.internal_get Disconnect.new is_typed schema_of
  is_typed-disconnect rs attr = ground (arith, run-IsFactory lib Disconnect.new rs (ground arith))

  -- The image transfer object, after any actions since it was made, answers every GET of an attribute
  -- but image_to_activate_info as its declarations owe: with success and one item of the attribute's
  -- schema, and with object_unavailable alone where no attribute is declared, which is also its answer
  -- for image_to_activate_info.
  pub is_typed-image_transfer :
      (no_bits : BitSet) (no_id : Vector) (rs : List (ℕ × Option Vector)) (attr : ℕ)
      → is_typed
          (if attr == attr_image_to_activate_info
            then none
            else schema_of image_transfer_attributes attr)
          (ImageTransfer.internal_get lib
            (ImageTransfer.run lib (ImageTransfer.new lib no_bits no_id) rs)
            attr)
        ≡ true
  unfolding ImageTransfer.internal_get ImageTransfer.new is_typed schema_of
  is_typed-image_transfer no_bits no_id rs attr =
      ground (arith, run-Shows lib false (ImageTransfer.new lib no_bits no_id) rs (ground arith))

  -- A method that is not declared is answered with object_unavailable and changes neither object.
  pub internal_action-undeclared :
      (d : Disconnect.Disconnect) (t : ImageTransfer.ImageTransfer lib) (method : ℕ)
      (parameters : Option Vector)
      → ((schema_of disconnect_methods method ≡ none)
          → Disconnect.internal_action d method ≡ (ActionResult.object_unavailable, d))
        × ((schema_of image_transfer_methods method ≡ none)
            → ImageTransfer.internal_action lib t method parameters
              ≡ (returned ActionResult.object_unavailable, t))
  unfolding Disconnect.internal_action ImageTransfer.internal_action schema_of
  internal_action-undeclared d t method parameters = (λ h. ground arith, λ h. ground arith)
