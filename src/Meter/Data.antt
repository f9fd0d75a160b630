-- ===== src/Meter/Data.antt =====
-- src/server/LinuxData.{h,cpp}: ten texts, the data object of class 1 at 0-0:96.1.{0..9}*255.
pub mod Laws
mod Tests
use dlms_access_point.Prelude.{
  ℕ, if◌then◌else◌, get_elem?, set, Text, codes, zero, suc, ◌+◌, ◌*◌, ◌%◌, ◌^◌, Option, none, some,
  List, [], ◌∷◌, ◌++◌,
}
use dlms_access_point.Meter.Cosem.{
  Library, DataAccessResult, type_unmatched, Item, string, is_success,
}

-- `m_Values`.
pub record Data : Type 0 where
  pub values : List Text

-- `ss << "LINUXDATA" << Index` for `n` rounds, behind what the stream holds. An index of the loop is
-- one digit.
write_copies : ℕ → ℕ → Text → Text
write_copies index zero out = out
write_copies index (suc n) out =
    write_copies index n (out ++ (codes "LINUXDATA" ++ (b'0' + index) ∷ []))

-- `4u << Index` copies.
pub fill_value : ℕ → Text
unfolding write_copies
fill_value index = write_copies index (4 * 2 ^ index % 2 ^ 32) []

-- The loop from `index` on, with `n` rounds left.
fill_values : ℕ → ℕ → List Text
fill_values index zero = []
fill_values index (suc n) = fill_value index ∷ fill_values (index + 1) n

unfoldable pub new : Data
unfolding fill_values
new = record { values = fill_values 0 10 }

module _ (lib : Library) where
  open lib use {Vector, BitSet}

  -- `e` is value group E of the requested instance. Beyond the array the behaviour is undefined:
  -- `none`.
  pub internal_get : Data → ℕ → Option (DataAccessResult × Item BitSet)
  internal_get d e = elim (get_elem? d.values e) [
    | none ↦ none
    | some v ↦ some (DataAccessResult.success, string v)
  ]

  -- DLMSValueGet throws, and the handler answers. Beyond the array the behaviour is undefined, and
  -- nothing is stored here: the criteria of the object let no such request through.
  assign : Data → ℕ → Option Text → DataAccessResult × Data
  assign d e none = (type_unmatched, d)
  assign d e (some v) = (DataAccessResult.success, record d { values = set d.values e v })

  -- The text that the library hands back for a vector, if it accepts it.
  pub taken : ℕ → Vector → Option (Option Text)
  unfolding is_success
  taken attr value =
      if is_success (lib.internal_set attr value)
      then elim (lib.next_value attr value) [ none ↦ none | some v ↦ some (lib.get_string v) ]
      else none

  pub internal_set : Data → ℕ → ℕ → Vector → DataAccessResult × Data
  unfolding taken assign
  internal_set d attr e value = elim (taken attr value) [
    | none ↦ (type_unmatched, d)
    | some v ↦ assign d e v
  ]
