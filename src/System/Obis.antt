-- ===== src/System/Obis.antt =====
-- The OBIS codes of the scripts of src/HESsim.cpp and src/APsim.cpp, by their six values.
use dlms_access_point.Prelude.{ℕ, Text, ◌≡◌, ◌≤◌, ◌∷◌, ◌++◌, codes, refl, arith}
use dlms_access_point.Console.Number.{to_string}
use dlms_access_point.Hes.Message.{Payload, small, medium, large}
use dlms_access_point.Hes.Script.{obis_of}

-- An OBIS code as text.
abbrev pub obis : ℕ → ℕ → ℕ → ℕ → ℕ → ℕ → Text
obis a b c d e f =
    to_string a
    ++ b'-'
      ∷ (to_string b
          ++ b':'
            ∷ (to_string c ++ b'.' ∷ (to_string d ++ b'.' ∷ (to_string e ++ b'*' ∷ to_string f))))

-- The data instance that a payload size selects.
abbrev pub instance_of : Payload → ℕ
instance_of small = 0
instance_of medium = 4
instance_of large = 9

pub obis_of-instance_of : (size : Payload) → obis_of size ≡ obis 0 0 96 1 (instance_of size) 255
unfolding obis_of to_string
obis_of-instance_of small = refl
obis_of-instance_of medium = refl
obis_of-instance_of large = refl

pub instance_of-le : (size : Payload) → instance_of size ≤ 9
instance_of-le small = omega arith
instance_of-le medium = omega arith
instance_of-le large = omega arith

pub obis_of-clock : codes "0-0:1.0.0*255" ≡ obis 0 0 1 0 0 255
unfolding to_string
obis_of-clock = refl

pub obis_of-disconnect : codes "0-0:96.3.10*255" ≡ obis 0 0 96 3 10 255
unfolding to_string
obis_of-disconnect = refl
