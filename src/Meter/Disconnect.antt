-- ===== src/Meter/Disconnect.antt =====
-- src/server/LinuxDisconnect.{h,cpp}: the disconnect control object, class 70. Console output and
-- the arguments that no branch reads (association, selective access) are left out.
pub mod Laws
mod Tests
use dlms_access_point.Prelude.{
  ℕ, ◌==◌, if◌then◌else◌, Bool, true, false, ◌||◌, Option, none, some, List, [], ◌∷◌,
}
use dlms_access_point.Meter.Cosem.{
  Library, DataAccessResult, temporary_failure, read_write_denied, ActionResult, Item, boolean,
  number, is_success,
}

-- `Disconnect::Attributes`.
abbrev pub attr_output_state : ℕ
attr_output_state = 2

abbrev pub attr_control_state : ℕ
attr_control_state = 3

abbrev pub attr_control_mode : ℕ
attr_control_mode = 4

-- `Disconnect::Methods`.
abbrev pub method_remote_disconnect : ℕ
method_remote_disconnect = 1

abbrev pub method_remote_reconnect : ℕ
method_remote_reconnect = 2

-- `Disconnect::ControlState`.
abbrev pub disconnected : ℕ
disconnected = 0

abbrev pub connected : ℕ
connected = 1

abbrev pub ready_for_reconnection : ℕ
ready_for_reconnection = 2

pub record Disconnect : Type 0 where
  pub is_connected : Bool
  pub control_state : ℕ
  pub control_mode : ℕ

-- The member initialisers.
unfoldable pub new : Disconnect
new = record { is_connected = true; control_state = connected; control_mode = 2 }

remote_disconnect : Disconnect → Disconnect
remote_disconnect d = if d.control_mode == 0 then d else record d { is_connected = false }

remote_reconnect : Disconnect → ActionResult × Disconnect
remote_reconnect d =
    let mode = d.control_mode in
    if mode == 1 || mode == 3 || mode == 5 || mode == 6
    then (ActionResult.success, record d { control_state = ready_for_reconnection })
    else if mode == 2 || mode == 4
    then (ActionResult.success, record d { control_state = connected; is_connected = true })
    else (ActionResult.object_unavailable, d)

unfoldable pub internal_action : Disconnect → ℕ → ActionResult × Disconnect
unfolding remote_disconnect remote_reconnect
internal_action d method =
    if method == method_remote_disconnect
    then (ActionResult.success, remote_disconnect d)
    else if method == method_remote_reconnect
    then remote_reconnect d
    else (ActionResult.object_unavailable, d)

module _ (lib : Library) where
  open lib use {Vector, BitSet}

  unfoldable pub internal_get : Disconnect → ℕ → DataAccessResult × Option (Item BitSet)
  internal_get d attr =
      if attr == attr_output_state
      then (DataAccessResult.success, some (boolean d.is_connected))
      else if attr == attr_control_state
      then (DataAccessResult.success, some (number d.control_state))
      else if attr == attr_control_mode
      then (DataAccessResult.success, some (number d.control_mode))
      else (DataAccessResult.object_unavailable, none)

  -- The assignment to the control mode is commented out in the source.
  set_control_mode : Disconnect → Vector → DataAccessResult × Disconnect
  unfolding is_success
  set_control_mode d value =
      if is_success (lib.internal_set attr_control_mode value)
      then elim (lib.next_value attr_control_mode value) [
        | none ↦ (temporary_failure, d)
        | some v ↦ (DataAccessResult.success, d)
      ]
      else (temporary_failure, d)

  pub internal_set : Disconnect → ℕ → Vector → DataAccessResult × Disconnect
  unfolding set_control_mode
  internal_set d attr value =
      if attr == attr_output_state || attr == attr_control_state
      then (read_write_denied, d)
      else if attr == attr_control_mode
      then set_control_mode d value
      else (temporary_failure, d)

  -- A request of a client.
  pub data Request : Type 0 where
    gets : ℕ → Request
    sets : ℕ → Vector → Request
    acts : ℕ → Request

  unfoldable pub step : Disconnect → Request → Disconnect
  unfolding internal_set internal_action
  step d (gets attr) = d
  step d (sets attr value) = (internal_set d attr value).1
  step d (acts method) = (internal_action d method).1

  pub run : Disconnect → List Request → Disconnect
  run d [] = d
  run d (r ∷ rs) = run (step d r) rs
