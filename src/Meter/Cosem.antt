-- ===== src/Meter/Cosem.antt =====
-- What src/server takes from the DLMS/COSEM library, a submodule of the repository: result codes,
-- the items that a GET appends to an attribute, and the calls into the library as one record.
use dlms_access_point.Prelude.{ℕ, Text, Bool, true, false, Option, List}

-- `APDUConstants::Data_Access_Result`: the codes that src/server names, and any other that a call
-- of the library returns.
pub data DataAccessResult : Type 0 where
  success object_unavailable temporary_failure read_write_denied type_unmatched : DataAccessResult
  other : ℕ → DataAccessResult

-- `APDUConstants::Action_Result`, by the codes that src/server names.
pub data ActionResult : Type 0 where
  success object_unavailable : ActionResult

-- A method returns a code, or an exception of the library leaves it.
pub data Outcome : Type 0 where
  returned : ActionResult → Outcome
  threw : Outcome

-- What `pAttribute->Append` is handed, by its C++ type.
pub data Item (BitSet : Type 0) : Type 0 where
  boolean : Bool → Item BitSet
  number : ℕ → Item BitSet
  string : Text → Item BitSet
  octets : List ℕ → Item BitSet
  bits : BitSet → Item BitSet

-- The library: `DLMSVector`, `DLMSValue` and `DLMSBitSet`, the base class's InternalSet on an
-- attribute, GetNextValue on that attribute afterwards, and DLMSValueGet at three types.
-- A DLMSValueGet that throws is `none`; one that reads a vector hands back the vector.
pub record Library : Type 1 where
  pub Vector : Type 0
  pub Value : Type 0
  pub BitSet : Type 0
  pub internal_set : ℕ → Vector → DataAccessResult
  pub next_value : ℕ → Vector → Option Value
  pub get_string : Value → Option Text
  pub get_octet_string : Vector → Option (Vector × Vector)
  pub get_double_long_unsigned : Vector → Option (ℕ × Vector)
  pub reset : BitSet → BitSet

unfoldable pub is_success : DataAccessResult → Bool
is_success success = true
is_success object_unavailable = false
is_success temporary_failure = false
is_success read_write_denied = false
is_success type_unmatched = false
is_success (other n) = false
