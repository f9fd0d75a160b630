-- ===== src/Meter/Clock/Tests.antt =====
-- Runs of the clock object.
use dlms_access_point.Prelude.{ℕ, List, none, ◌≢◌, ◌⊎◌, ◌≡◌, refl, some, [], ◌∷◌, arith}
use dlms_access_point.Meter.Clock.{Tm, daylight, encode_time, internal_get}
use dlms_access_point.Meter.Cosem.{DataAccessResult, octets}
use dlms_access_point.Meter.Clock.Laws.{decode, is_daylight, internal_get-decode}

-- Sunday 2 August 2020, 23:59:08, in summer time.
abbrev sunday : Tm
sunday = record {
  tm_year = 120;
  tm_mon = 7;
  tm_mday = 2;
  tm_wday = 0;
  tm_hour = 23;
  tm_min = 59;
  tm_sec = 8;
  tm_isdst = daylight;
}

sunday_bytes : encode_time sunday ≡ 7 ∷ 228 ∷ 8 ∷ 2 ∷ 7 ∷ 23 ∷ 59 ∷ 8 ∷ 0 ∷ 0 ∷ 0 ∷ 128 ∷ []
unfolding encode_time
sunday_bytes = refl

abbrev attr : ℕ
attr = 2

internal_get-decode_example :
    ((attr ≢ 2)
      × (internal_get {BitSet = Unit} sunday attr ≡ (DataAccessResult.object_unavailable, none)))
    ⊎ ((attr ≡ 2)
        × ((bytes : List ℕ) × (internal_get {BitSet = Unit} sunday attr
              ≡ (DataAccessResult.success, some (octets bytes)))
            × (decode bytes
                ≡ some (record {
                  year = 2020;
                  month = 8;
                  day = 2;
                  weekday = 7;
                  hour = 23;
                  minute = 59;
                  second = 8;
                  daylight_saving = is_daylight daylight;
                }))))
internal_get-decode_example = internal_get-decode sunday attr (omega arith)
