-- ===== src/Client/Confirm.antt =====
-- Class LinuxClientEngine, of which src/APsim.cpp, src/HESsim.cpp and src/Linux.cpp have one each: the
-- confirmation of a GET, by its trace and its answer. A visible string holds no zero byte.
use dlms_access_point.Prelude.{
  ℕ, ◌==◌, if◌then◌else◌, Text, codes, suc, ℤ, pos, negsuc, Bool, true, false, ◌&&◌, Option, none,
  some, ◌∷◌, ◌++◌,
}
use dlms_access_point.Core.Debug as Debug
use dlms_access_point.Console.Number.{to_string}

-- The library's decoding of a result: GetNextValue on a vector, DLMSValueGet at a visible string
-- (`none` where it throws), IsSequence, the two parts of a sequence as the trace reads them (`none`
-- where a read throws), whether DLMSValueGetSequence returns, and two constants.
pub record Codec : Type 1 where
  pub Vector : Type 0
  pub Value : Type 0
  pub next_value : Vector → Option Value
  pub visible_string : Value → Option Text
  pub is_sequence : Value → Bool
  pub partners : Value → Option (ℤ × ℕ)
  pub gets_sequence : Value → Bool
  pub sizeof_sequence : ℕ
  pub invalid_address : ℕ

-- `CLSID_IData`, `CLSID_IAssociationLN`, `ATTR_PARTNERS_ID` and `ATTR_OBJ_LIST`, by their numbers in
-- src/doc/05_design.md.
abbrev pub clsid_idata : ℕ
clsid_idata = 1

abbrev pub clsid_iassociation_ln : ℕ
clsid_iassociation_ln = 15

abbrev pub attr_obj_list : ℕ
attr_obj_list = 2

abbrev attr_partners_id : ℕ
attr_partners_id = 3

-- What a callback changes: the text of src/APsim.cpp's `recent`, and what has been traced and printed.
pub record Engine : Type 0 where
  pub recent : Text
  pub traced : Text
  pub printed : Text

-- A callback answers, or an exception leaves it.
pub data Confirmed : Type 0 where
  answered : Bool → Engine → Confirmed
  threw : Engine → Confirmed

-- `TRACE`, with the text that its format makes.
unfoldable pub trace : Engine → Text → Engine
trace e text = record e { traced = e.traced ++ Debug.trace text }

-- `%d` at a number with a sign.
print_signed : ℤ → Text
print_signed (pos n) = to_string n
print_signed (negsuc n) = b'-' ∷ to_string (suc n)

module _ (codec : Codec) where
  open codec use {Vector, Value}

  -- `Get_Data_Result_Choice`.
  pub data Result : Type 0 where
    access_result : ℕ → Result
    vector : Vector → Result

  pub record GetResponse : Type 0 where
    pub result_valid : Bool
    pub result : Result
    pub class_id : ℕ
    pub attribute_id : ℕ

  pub is_access_result : Result → Bool
  is_access_result (access_result n) = true
  is_access_result (vector v) = false

  -- The trace at the head of every confirmation of a GET.
  unfoldable pub announce : ℕ → Engine → Engine
  unfolding trace
  announce token e =
      trace e (codes "Get Confirmation for Token " ++ (to_string token ++ codes "...\n"))

  -- The other choice does not come here.
  unfoldable pub deny : Result → Engine → Confirmed
  unfolding trace
  deny (access_result n) e =
      answered false (trace e (codes "\tReturned Error Code " ++ (to_string n ++ codes "...\n")))
  deny (vector v) e = threw e

  -- `Response.Result.get<DLMSVector>()` throws at the other choice.
  unfoldable pub with_vector : Result → Engine → (Vector → Confirmed) → Confirmed
  with_vector (access_result n) e k = threw e
  with_vector (vector v) e k = k v

  take_text : Engine → Option Value → Confirmed
  unfolding trace
  take_text e none = answered true e
  take_text e (some v) = elim (codec.visible_string v) [
    | none ↦ threw e
    | some t ↦
        let printed = e.printed ++ (codes "Setting recent to \"" ++ (t ++ codes "\"\n")) in
        answered true (trace (record e { recent = t; printed = printed }) (t ++ codes "\n"))
  ]

  unfoldable pub trace_partners : Engine → Option (ℤ × ℕ) → Confirmed
  unfolding trace print_signed
  trace_partners e none = threw e
  trace_partners e (some (client_sap, server_sap)) =
      let line =
        codes "ClientSAP "
        ++ (print_signed client_sap
            ++ (codes "; ServerSAP " ++ (to_string server_sap ++ codes "\n"))) in
      answered true (trace e line)

  unfoldable pub take_partners : Engine → Option Value → Confirmed
  unfolding trace_partners
  take_partners e none = answered true e
  take_partners e (some v) =
      if codec.is_sequence v then trace_partners e (codec.partners v) else answered true e

  unfoldable pub not_supported : Engine → ℕ → Confirmed
  unfolding trace
  not_supported e attribute_id = answered true (
      trace e
        (codes "Attribute " ++ (to_string attribute_id ++ codes " not supported for parsing.")))

  take_association : Engine → GetResponse → Confirmed
  unfolding with_vector take_partners not_supported
  take_association e r =
      if r.attribute_id == attr_partners_id
      then with_vector r.result e (λ v. take_partners e (codec.next_value v))
      else not_supported e r.attribute_id

  -- OnGetConfirmation of src/APsim.cpp.
  unfoldable pub on_get_confirmation : Engine → ℕ → GetResponse → Confirmed
  unfolding is_access_result announce deny with_vector take_text take_association
  on_get_confirmation e token r =
      let e' = announce token e in
      if r.result_valid && is_access_result r.result
      then deny r.result e'
      else if r.class_id == clsid_idata
      then with_vector r.result e' (λ v. take_text e' (codec.next_value v))
      else if r.class_id == clsid_iassociation_ln
      then take_association e' r
      else answered true e'

  -- OnGetConfirmation of src/HESsim.cpp.
  show_text : Engine → Option Value → Confirmed
  unfolding trace
  show_text e none = answered true e
  show_text e (some v) = elim (codec.visible_string v) [
    | none ↦ threw e
    | some t ↦ answered true (trace e (t ++ codes "\n"))
  ]

  unfoldable pub hes_on_get_confirmation : Engine → ℕ → GetResponse → Confirmed
  unfolding is_access_result announce deny with_vector show_text take_association
  hes_on_get_confirmation e token r =
      let e' = announce token e in
      if r.result_valid && is_access_result r.result
      then deny r.result e'
      else if r.class_id == clsid_idata
      then with_vector r.result e' (λ v. show_text e' (codec.next_value v))
      else if r.class_id == clsid_iassociation_ln
      then take_association e' r
      else answered true e'

  -- OnGetConfirmation of src/Linux.cpp, which has a case for the list of objects.
  show_objects : Engine → Option Value → Confirmed
  unfolding trace
  show_objects e none =
      answered true (trace e (codes "This is where we would show some objects.  Sorry."))
  show_objects e (some v) =
      let size = codes "Size of element is " ++ (to_string codec.sizeof_sequence ++ codes "\n") in
      if codec.gets_sequence v
      then answered true (
          trace (record e { printed = e.printed ++ size })
            (codes "This is where we would show some objects.  Sorry."))
      else threw e

  unfoldable pub harness_on_get_confirmation : Engine → ℕ → GetResponse → Confirmed
  unfolding is_access_result announce deny with_vector show_text take_partners show_objects
      not_supported
  harness_on_get_confirmation e token r =
      let e' = announce token e in
      if r.result_valid && is_access_result r.result
      then deny r.result e'
      else if r.class_id == clsid_idata
      then with_vector r.result e' (λ v. show_text e' (codec.next_value v))
      else if r.class_id == clsid_iassociation_ln && r.attribute_id == attr_partners_id
      then with_vector r.result e' (λ v. take_partners e' (codec.next_value v))
      else if r.class_id == clsid_iassociation_ln && r.attribute_id == attr_obj_list
      then with_vector r.result e' (λ v. show_objects e' (codec.next_value v))
      else if r.class_id == clsid_iassociation_ln
      then not_supported e' r.attribute_id
      else answered true e'
