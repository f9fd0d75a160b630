-- ===== src/Meter/Sample.antt =====
-- A small stand-in for the DLMS/COSEM library, for runs at concrete inputs: a vector is a list of
-- bytes, a value is the text in it, and a number is read from one byte.
use dlms_access_point.Prelude.{ℕ, Text, Bool, false, Option, none, some, List, [], ◌∷◌, map}
use dlms_access_point.Meter.Cosem.{Library, DataAccessResult, success, type_unmatched}

-- An empty vector is refused.
abbrev accept : ℕ → List ℕ → DataAccessResult
accept attr [] = type_unmatched
accept attr (b ∷ bs) = success

abbrev read_value : ℕ → List ℕ → Option Text
read_value attr [] = none
read_value attr (b ∷ bs) = some (b ∷ bs)

abbrev split_first : List ℕ → Option (ℕ × List ℕ)
split_first [] = none
split_first (b ∷ bs) = some (b, bs)

-- The first byte, as a vector.
abbrev split_octets : List ℕ → Option (List ℕ × List ℕ)
split_octets [] = none
split_octets (b ∷ bs) = some (b ∷ [], bs)

abbrev pub sample_library : Library
sample_library = record {
  Vector = List ℕ;
  Value = Text;
  BitSet = List Bool;
  internal_set = accept;
  next_value = read_value;
  get_string = λ v. some v;
  get_octet_string = split_octets;
  get_double_long_unsigned = split_first;
  reset = map (λ _. false);
}
