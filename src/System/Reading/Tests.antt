-- ===== src/System/Reading/Tests.antt =====
-- The reading of a meter after some requests.
use dlms_access_point.Prelude.{
  ℕ, Text, get_elem?, ◌≡◌, refl, true, some, List, [], ◌∷◌, pos, false, Bool,
}
use dlms_access_point.Client.Confirm.{Codec, Engine, answered, on_get_confirmation}
use dlms_access_point.Meter.Cosem.{DataAccessResult, Item, boolean, number, string, octets, bits}
use dlms_access_point.Meter.Sample.{sample_library}
use dlms_access_point.Meter.Device.{get}
use dlms_access_point.Ap.Config.{large}
use dlms_access_point.Ap.Script as ApScript
use dlms_access_point.System.Obis.{instance_of}
use dlms_access_point.System.Service.{served}
use dlms_access_point.System.Sample.{
  number_client, number_server, number_client-Parses, number_server-Finds, noon, history,
}
use dlms_access_point.System.Reading.{asked, Decodes, response, recent-served}

abbrev text_codec : Codec
text_codec = record {
  Vector = Text;
  Value = Text;
  next_value = λ v. some v;
  visible_string = λ v. some v;
  is_sequence = λ v. false;
  partners = λ v. some (pos 1, 1);
  gets_sequence = λ v. false;
  sizeof_sequence = 24;
  invalid_address = 65535;
}

abbrev encode_text : Item (List Bool) → Text
encode_text (boolean b) = []
encode_text (number n) = n ∷ []
encode_text (string t) = t
encode_text (octets bytes) = bytes
encode_text (bits b) = []

text_codec-Decodes : Decodes text_codec encode_text
text_codec-Decodes t = (t, refl, refl)

abbrev idle : Engine
idle = record { recent = []; traced = []; printed = [] }

recent-served_example :
    let d = served number_client sample_library number_server [] [] history in
    (id : List ℕ) × (number_client.parse (ApScript.obis_of large) ≡ some id)
    × ((t : Text) × (get sample_library number_server d noon 1 2 id
          ≡ some (DataAccessResult.success, some (string t)))
        × (get_elem? d.data_object.values (instance_of (asked large)) ≡ some t)
        × ((e' : Engine) × (on_get_confirmation text_codec idle 7
                (response text_codec encode_text (string t))
              ≡ answered true e')
            × (e'.recent ≡ t)))
recent-served_example =
    recent-served number_client sample_library number_server text_codec encode_text
      number_client-Parses number_server-Finds text_codec-Decodes [] [] history noon large idle 7
