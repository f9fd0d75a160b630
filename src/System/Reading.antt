-- ===== src/System/Reading.antt =====
-- src/APsim.cpp and src/server: the way of a reading, from the data object of a meter to the text
-- that the access point stores for it.
mod Tests
use dlms_access_point.Prelude.{
  ℕ, Text, ◌≡◌, refl, true, some, get_elem?, ap, ◌∙◌, List, codes, ◌++◌, arith,
}
use dlms_access_point.Client.Library as Client
use dlms_access_point.Client.Confirm.{
  Codec, Engine, GetResponse, vector, answered, trace, on_get_confirmation, announce,
}
use dlms_access_point.Meter.Cosem.{Item, string, DataAccessResult, Library}
use dlms_access_point.Ap.Config as ApConfig
use dlms_access_point.Ap.Script as ApScript
use dlms_access_point.Hes.Message.{Payload, small, medium, large}
use dlms_access_point.Hes.Script.{obis_of}
use dlms_access_point.Client.Library as Client
use dlms_access_point.Meter.Clock.{Tm}
use dlms_access_point.Meter.Device.{Server, Request, get}
use dlms_access_point.System.Obis.{instance_of}
use dlms_access_point.System.Service.{
  Parses, Finds, served, parse-payload, get-payload, served-IsSound,
}

-- The size that the head-end system has for one of the access point.
pub asked : ApConfig.Payload → Payload
asked ApConfig.Payload.small = small
asked ApConfig.Payload.medium = medium
asked ApConfig.Payload.large = large

-- Both programs name one instance for a size.
obis_of-asked : (size : ApConfig.Payload) → ApScript.obis_of size ≡ obis_of (asked size)
unfolding ApScript.obis_of obis_of asked
obis_of-asked ApConfig.Payload.small = refl
obis_of-asked ApConfig.Payload.medium = refl
obis_of-asked ApConfig.Payload.large = refl

module _ (codec : Codec) {BitSet : Type 0} (encode : Item BitSet → codec.Vector) where
  -- A visible string that the server has encoded is decoded by the client.
  abbrev pub Decodes : Type 0
  Decodes =
      (t : Text)
      → (x : codec.Value) × (codec.next_value (encode (string t)) ≡ some x)
        × (codec.visible_string x ≡ some t)

  -- The confirmation of a GET of the data object's value that carries an item.
  abbrev pub response : Item BitSet → GetResponse codec
  response item = record {
    result_valid = true;
    result = vector (encode item);
    class_id = 1;
    attribute_id = 2;
  }

  on_get_confirmation-string :
      (e : Engine) (token : ℕ) (t : Text)
      → Decodes
      → (e' : Engine) × (on_get_confirmation codec e token (response (string t)) ≡ answered true e')
        × (e'.recent ≡ t)
  unfolding on_get_confirmation trace
  on_get_confirmation-string e token t decodes =
      let (x, n, s) = decodes t in
      let told = announce codec token e in
      let printed = told.printed ++ (codes "Setting recent to \"" ++ (t ++ codes "\"\n")) in
      (trace (record told { recent = t; printed = printed }) (t ++ codes "\n"), ground arith, refl)

module _ (client : Client.Library) (lib : Library) (server : Server lib client.Oid) (codec : Codec)
    (encode : Item lib.BitSet → codec.Vector) where
  -- Whatever has been asked of a meter of the repository since it started: the reading that the access
  -- point asks for, at whatever payload size, is answered with a text, the one that the meter's data
  -- object holds for that size; and the confirmation that carries it leaves exactly that text in
  -- `recent`, of whatever length. The client's parser, the server's dispatch, and that a visible string
  -- is decoded as it was encoded are hypotheses.
  pub recent-served :
      (parses : Parses client lib server) (finds : Finds client lib server)
      (decodes : Decodes codec encode) (no_bits : lib.BitSet) (no_id : lib.Vector)
      (rs : List (Request lib server)) (tm : Tm) (size : ApConfig.Payload) (e : Engine) (token : ℕ)
      → let d = served client lib server no_bits no_id rs in
        (id : client.Oid) × (client.parse (ApScript.obis_of size) ≡ some id)
        × ((t : Text) × (get lib server d tm 1 2 id
              ≡ some (DataAccessResult.success, some (string t)))
            × (get_elem? d.data_object.values (instance_of (asked size)) ≡ some t)
            × ((e' : Engine) × (on_get_confirmation codec e token (response codec encode (string t))
                  ≡ answered true e')
                × (e'.recent ≡ t)))
  recent-served parses finds decodes no_bits no_id rs tm size e token =
      let d = served client lib server no_bits no_id rs in
      let (id, parsed, groups) = parse-payload client lib server parses finds (asked size) in
      let (t, got, held) =
        get-payload client lib server parses finds d tm (asked size) id groups
          (served-IsSound client lib server parses finds no_bits no_id rs tm) in
      (
        id,
        ap client.parse (obis_of-asked size) ∙ parsed,
        (t, got, held, on_get_confirmation-string codec encode e token t decodes),
      )
