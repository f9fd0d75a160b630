-- ===== src/Meter/Data/Tests.antt =====
-- Runs of the data object.
use dlms_access_point.Prelude.{
  ◌==◌, if◌then◌else◌, Text, codes, ◌≡◌, refl, ◌⊎◌, some, [], ◌∷◌, arith,
}
use dlms_access_point.Meter.Cosem.{DataAccessResult, type_unmatched, string}
use dlms_access_point.Meter.Sample.{sample_library}
use dlms_access_point.Meter.Data.{Data, fill_value, internal_get, taken, internal_set}
use dlms_access_point.Meter.Data.Laws.{internal_get-internal_set}

first_value : fill_value 0 ≡ codes "LINUXDATA0LINUXDATA0LINUXDATA0LINUXDATA0"
unfolding fill_value
first_value = refl

abbrev two_values : Data
two_values = record { values = codes "a" ∷ codes "b" ∷ [] }

internal_get-internal_set_example :
    let r = internal_set sample_library two_values 2 1 (codes "c") in
    ((r.0 ≡ DataAccessResult.success)
      × ((v : Text) × (taken sample_library 2 (codes "c") ≡ some (some v))
          × (internal_get sample_library r.1 0 ≡ (
              if 1 == 0
              then some (DataAccessResult.success, string v)
              else internal_get sample_library two_values 0))))
    ⊎ ((r.0 ≡ type_unmatched) × (r.1 ≡ two_values))
internal_get-internal_set_example =
    internal_get-internal_set sample_library two_values 2 1 0 (codes "c") (omega arith)
