-- ===== src/Meter/Disconnect/Laws.antt =====
-- The disconnect object over histories of requests, and the decisions of its methods.
use dlms_access_point.Prelude.{
  ℕ, ◌==◌, if◌then◌else◌, ◌≤◌, ◌≡◌, refl, ◌≢◌, ◌↔◌, ◌⊎◌, Bool, true, false, none, some, List, [],
  ◌∷◌, arith,
}
use dlms_access_point.Meter.Cosem.{Library, DataAccessResult, ActionResult, boolean, number}
use dlms_access_point.Meter.Disconnect.{
  Disconnect, attr_output_state, attr_control_state, attr_control_mode, method_remote_disconnect,
  method_remote_reconnect, connected, new, internal_action, internal_get, internal_set, Request,
  gets, sets, acts, step, run,
}

-- A remote reconnect succeeds exactly in control modes 1 to 6. The output is on afterwards exactly
-- if it was on before or the mode is 2 or 4. A remote disconnect always succeeds, and leaves the
-- output on exactly if it was on and the mode is 0.
pub internal_action_modes :
    (d : Disconnect)
    → let r = internal_action d method_remote_reconnect in
      let c = internal_action d method_remote_disconnect in
      ((r.0 ≡ ActionResult.success) ↔ ((1 ≤ d.control_mode) × (d.control_mode ≤ 6)))
      × ((r.1.is_connected ≡ true)
          ↔ ((d.is_connected ≡ true) ⊎ ((d.control_mode ≡ 2) ⊎ (d.control_mode ≡ 4))))
      × (c.0 ≡ ActionResult.success)
      × ((c.1.is_connected ≡ true) ↔ ((d.is_connected ≡ true) × (d.control_mode ≡ 0)))
unfolding internal_action
internal_action_modes d = (
  (λ h. ground arith, λ h. ground arith),
  (λ h. ground arith, λ h. ground arith),
  ground arith,
  (λ h. ground arith, λ h. ground arith),
)

module _ (lib : Library) where
  open lib use {Vector}

  -- Where the relay stands after a history, by its last switching action.
  pub switched : Bool → List (Request lib) → Bool
  switched b [] = b
  switched b (gets attr ∷ rs) = switched b rs
  switched b (sets attr value ∷ rs) = switched b rs
  switched b (acts method ∷ rs) =
      switched
        (if method == method_remote_disconnect
          then false
          else if method == method_remote_reconnect
          then true
          else b)
        rs

  -- The object as it is when the meter starts, but for the relay.
  abbrev pub IsFactory : Disconnect → Type 0
  IsFactory d = (d.control_state ≡ connected) × (d.control_mode ≡ 2)

  pub step-IsFactory :
      (d : Disconnect) (r : Request lib)
      → IsFactory d
      → IsFactory (step lib d r) × ((step lib d r).is_connected ≡ switched d.is_connected (r ∷ []))
  unfolding step switched
  step-IsFactory d (gets attr) h = ground arith
  step-IsFactory d (sets attr value) h = ground arith
  step-IsFactory d (acts method) h = ground arith

  switched-cons :
      (b : Bool) (r : Request lib) (rs : List (Request lib))
      → switched b (r ∷ rs) ≡ switched (switched b (r ∷ [])) rs
  unfolding switched
  switched-cons b (gets attr) rs = refl
  switched-cons b (sets attr value) rs = refl
  switched-cons b (acts method) rs = refl

  pub run-IsFactory :
      (d : Disconnect) (rs : List (Request lib))
      → IsFactory d
      → IsFactory (run lib d rs) × ((run lib d rs).is_connected ≡ switched d.is_connected rs)
  unfolding run
  run-IsFactory d [] h = (h, unfold switched in refl)
  run-IsFactory d (r ∷ rs) h =
      let (kept, moved) = step-IsFactory d r h in
      let (kept', moved') = run-IsFactory (step lib d r) rs kept in
      (kept', rw (switched-cons, ← moved) moved')

  -- Whatever a client asks of a meter since it started, the output state that a GET answers is that
  -- of the last remote disconnect or reconnect (on, if there was none), and the control state that
  -- a GET answers is CONNECTED, also when the output is off.
  pub internal_get-run :
      (rs : List (Request lib))
      → (internal_get lib (run lib new rs) attr_output_state
          ≡ (DataAccessResult.success, some (boolean (switched true rs))))
        × (internal_get lib (run lib new rs) attr_control_state
            ≡ (DataAccessResult.success, some (number connected)))
  unfolding internal_get new
  internal_get-run rs = ground (arith, run-IsFactory new rs (ground arith))

  -- A SET of the control mode is answered with success exactly if the library takes the value and
  -- hands it back, and in that case too every attribute reads afterwards as before.
  internal_set-control_mode :
      (d : Disconnect) (value : Vector) (attr : ℕ)
      → let r = internal_set lib d attr_control_mode value in
        ((r.0 ≡ DataAccessResult.success) ↔ (
          (lib.internal_set attr_control_mode value ≡ DataAccessResult.success)
          × (lib.next_value attr_control_mode value ≢ none)))
        × (internal_get lib r.1 attr ≡ internal_get lib d attr)
  unfolding internal_set
  internal_set-control_mode d value attr = ((λ h. ground arith, λ h. ground arith), ground arith)
