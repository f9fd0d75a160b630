-- ===== src/Meter/Clock.antt =====
-- src/server/LinuxClock.{h,cpp}: the clock object, class 8. `std::localtime` is outside: its result,
-- a `struct tm`, is an argument. Its fields are `int`s that the C library keeps at 0 or above, but
-- for `tm_isdst`.
pub mod Laws
mod Tests
use dlms_access_point.Prelude.{
  ℕ, ◌==◌, if◌then◌else◌, ◌+◌, ◌/◌, ◌%◌, Option, none, some, List, [], ◌∷◌,
}
use dlms_access_point.Meter.Cosem.{DataAccessResult, ActionResult, Item, octets}

-- `IClock::ATTR_TIME`, by its number in src/doc/05_design.md.
abbrev attr_time : ℕ
attr_time = 2

-- `tm_isdst`: negative where it is not known.
pub data Dst : Type 0 where
  unknown standard : Dst
  daylight : Dst

pub record Tm : Type 0 where
  pub tm_year : ℕ
  pub tm_mon : ℕ
  pub tm_mday : ℕ
  pub tm_wday : ℕ
  pub tm_hour : ℕ
  pub tm_min : ℕ
  pub tm_sec : ℕ
  pub tm_isdst : Dst

-- `static_cast<std::uint8_t>`.
abbrev u8 : ℕ → ℕ
u8 n = n % 256

dst_flag : Dst → ℕ
dst_flag unknown = 0
dst_flag standard = 0
dst_flag daylight = 0x80

-- `>> 8` and `& 0xff` on the year.
pub encode_time : Tm → List ℕ
unfolding dst_flag
encode_time tm =
    u8 ((tm.tm_year + 1900) / 256)
    ∷ u8 ((tm.tm_year + 1900) % 256)
    ∷ u8 (tm.tm_mon + 1)
    ∷ u8 tm.tm_mday
    ∷ u8 (if tm.tm_wday == 0 then 7 else tm.tm_wday)
    ∷ u8 tm.tm_hour
    ∷ u8 tm.tm_min
    ∷ u8 tm.tm_sec
    ∷ 0
    ∷ 0
    ∷ 0
    ∷ u8 (dst_flag tm.tm_isdst)
    ∷ []

unfoldable pub internal_get : {BitSet : Type 0} → Tm → ℕ → DataAccessResult × Option (Item BitSet)
unfolding encode_time
internal_get tm attr =
    if attr == attr_time
    then (DataAccessResult.success, some (octets (encode_time tm)))
    else (DataAccessResult.object_unavailable, none)

-- Every method of the clock is answered so.
pub internal_action : ℕ → ActionResult
internal_action method = ActionResult.object_unavailable
