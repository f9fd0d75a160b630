-- ===== src/Meter/Clock/Laws.antt =====
-- The time of day that a GET carries, read back.
use dlms_access_point.Prelude.{
  ℕ, leb, ◌==◌, if◌then◌else◌, length, All, ◌+◌, ◌*◌, ◌≤◌, ◌<◌, ◌≡◌, ◌≢◌, ◌⊎◌, inl, inr, Bool-cases,
  refl, Bool, true, false, Option, none, some, List, [], ◌∷◌, arith,
}
use dlms_access_point.Meter.Clock.{Tm, Dst, unknown, standard, daylight, encode_time, internal_get}
use dlms_access_point.Meter.Cosem.{DataAccessResult, octets}

-- A calendar time: months from 1, days of the week from Monday as 1.
pub record DateTime : Type 0 where
  pub year : ℕ
  pub month : ℕ
  pub day : ℕ
  pub weekday : ℕ
  pub hour : ℕ
  pub minute : ℕ
  pub second : ℕ
  pub daylight_saving : Bool

-- The reading of a COSEM date-time of 12 bytes.
pub decode : List ℕ → Option DateTime
decode (yh ∷ yl ∷ mon ∷ day ∷ wd ∷ h ∷ m ∷ s ∷ cs ∷ dh ∷ dl ∷ status ∷ []) = some (record {
  year = yh * 256 + yl;
  month = mon;
  day = day;
  weekday = wd;
  hour = h;
  minute = m;
  second = s;
  daylight_saving = leb 0x80 status;
})
decode _ = none

-- What the C library promises of `localtime`, and a year that two bytes hold.
pub record IsTime (tm : Tm) : Type 0 where
  pub year_fits : tm.tm_year + 1900 < 65536
  pub month_fits : tm.tm_mon < 12
  pub day_fits : tm.tm_mday ≤ 31
  pub weekday_fits : tm.tm_wday < 7
  pub hour_fits : tm.tm_hour < 24
  pub minute_fits : tm.tm_min < 60
  pub second_fits : tm.tm_sec ≤ 60

pub is_daylight : Dst → Bool
is_daylight unknown = false
is_daylight standard = false
is_daylight daylight = true

decode-encode_time :
    (tm : Tm)
    → IsTime tm
    → decode (encode_time tm)
      ≡ some (record {
        year = tm.tm_year + 1900;
        month = tm.tm_mon + 1;
        day = tm.tm_mday;
        weekday = if tm.tm_wday == 0 then 7 else tm.tm_wday;
        hour = tm.tm_hour;
        minute = tm.tm_min;
        second = tm.tm_sec;
        daylight_saving = is_daylight tm.tm_isdst;
      })
unfolding encode_time decode is_daylight
decode-encode_time tm h = ground arith

-- A GET of any attribute of the clock other than 2 finds no object. A GET of attribute 2 answers
-- success and bytes that read back as the local time: the full year, the month counted from 1, Sunday
-- as day 7 and any other day by its number, and daylight saving exactly if `tm_isdst` is positive.
pub internal_get-decode :
    {BitSet : Type 0} (tm : Tm) (attr : ℕ)
    → IsTime tm
    → ((attr ≢ 2)
        × (internal_get {BitSet = BitSet} tm attr ≡ (DataAccessResult.object_unavailable, none)))
      ⊎ ((attr ≡ 2)
          × ((bytes : List ℕ) × (internal_get {BitSet = BitSet} tm attr
                ≡ (DataAccessResult.success, some (octets bytes)))
              × (decode bytes
                  ≡ some (record {
                    year = tm.tm_year + 1900;
                    month = tm.tm_mon + 1;
                    day = tm.tm_mday;
                    weekday = if tm.tm_wday == 0 then 7 else tm.tm_wday;
                    hour = tm.tm_hour;
                    minute = tm.tm_min;
                    second = tm.tm_sec;
                    daylight_saving = is_daylight tm.tm_isdst;
                  }))))
unfolding internal_get
internal_get-decode tm attr h = elim (Bool-cases (attr == 2)) [
  | inl e ↦ inr (ground arith, (encode_time tm, ground arith, decode-encode_time tm h))
  | inr n ↦ inl ((λ e. ground arith), ground arith)
]

-- Whatever the clock says, what a GET of the time appends is 12 bytes.
encode_time-All : (tm : Tm) → (length (encode_time tm) ≡ 12) × All (λ b. b < 256) (encode_time tm)
unfolding encode_time
encode_time-All tm = (refl, ground arith)
