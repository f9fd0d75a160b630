-- ===== src/Client/Callbacks.antt =====
-- The callbacks of class LinuxClientEngine in src/APsim.cpp, src/HESsim.cpp and src/Linux.cpp. The
-- three have one text but for OnGetConfirmation, which is an argument of what they share.
pub mod Laws
pub mod Recent
mod Tests
use dlms_access_point.Prelude.{
  ℕ, ◌==◌, if◌then◌else◌, Text, codes, Bool, true, false, List, [], ◌∷◌, ◌++◌,
}
use dlms_access_point.Console.Number.{to_string}
use dlms_access_point.Client.Confirm.{
  Codec, Engine, Confirmed, answered, threw, GetResponse, trace, on_get_confirmation,
  hes_on_get_confirmation, harness_on_get_confirmation,
}

-- `SetResponse` and `ActionResponse`.
pub record Response : Type 0 where
  pub result_valid : Bool
  pub result : ℕ

module _ (codec : Codec) where
  -- The library's calls: OnOpenConfirmation, OnGetConfirmation, OnSetConfirmation,
  -- OnActionConfirmation, OnReleaseConfirmation without and with an address, and OnAbortIndication.
  pub data Event : Type 0 where
    opened : ℕ → Event
    got : ℕ → GetResponse codec → Event
    has_set has_acted : ℕ → Response → Event
    released : Event
    released_by aborted : ℕ → Event

  numbered : Text → ℕ → Text → Text
  numbered head n tail = head ++ (to_string n ++ tail)

  on_open_confirmation : Engine → ℕ → Confirmed
  unfolding numbered
  on_open_confirmation e address =
      answered true (trace e (numbered (codes "Associated with Server ") address (codes "...\n")))

  respond : Engine → Response → Confirmed
  unfolding numbered
  respond e r =
      if r.result_valid
      then answered true (trace e (numbered (codes "\tResponse Code ") r.result (codes "...\n")))
      else answered true e

  on_set_confirmation : Engine → ℕ → Response → Confirmed
  unfolding numbered respond
  on_set_confirmation e token r =
      respond (trace e (numbered (codes "Set Confirmation for Token ") token (codes "...\n"))) r

  on_action_confirmation : Engine → ℕ → Response → Confirmed
  unfolding numbered respond
  on_action_confirmation e token r =
      respond (trace e (numbered (codes "Action Confirmation for Token ") token (codes "...\n"))) r

  on_release_confirmation : Engine → Confirmed
  on_release_confirmation e = answered true (trace e (codes "Release Confirmation from Server\n"))

  on_release_confirmation_by : Engine → ℕ → Confirmed
  unfolding numbered
  on_release_confirmation_by e address =
      answered true
        (trace e (numbered (codes "Release Confirmation from Server ") address (codes "\n")))

  on_abort_indication : Engine → ℕ → Confirmed
  unfolding numbered
  on_abort_indication e address =
      if codec.invalid_address == address
      then answered true (trace e (codes "Abort Indication.  Not Associated.\n"))
      else answered true
          (trace e (numbered (codes "Abort Indication from Server ") address (codes "\n")))

  on_event : (Engine → ℕ → GetResponse codec → Confirmed) → Engine → Event → Confirmed
  unfolding on_open_confirmation on_set_confirmation on_action_confirmation on_release_confirmation
      on_release_confirmation_by on_abort_indication
  on_event on_get e (opened address) = on_open_confirmation e address
  on_event on_get e (got token r) = on_get e token r
  on_event on_get e (has_set token r) = on_set_confirmation e token r
  on_event on_get e (has_acted token r) = on_action_confirmation e token r
  on_event on_get e released = on_release_confirmation e
  on_event on_get e (released_by address) = on_release_confirmation_by e address
  on_event on_get e (aborted address) = on_abort_indication e address

  unfoldable pub ap_on_event : Engine → Event → Confirmed
  unfolding on_event
  ap_on_event e v = on_event (on_get_confirmation codec) e v

  unfoldable pub hes_on_event : Engine → Event → Confirmed
  unfolding on_event
  hes_on_event e v = on_event (hes_on_get_confirmation codec) e v

  unfoldable pub harness_on_event : Engine → Event → Confirmed
  unfolding on_event
  harness_on_event e v = on_event (harness_on_get_confirmation codec) e v

  -- The calls in a row, with their answers; an exception is the last. It leaves the event loop.
  continue : Confirmed → (Engine → Engine × List Bool × Bool) → Engine × List Bool × Bool
  continue (threw e) rest = (e, [], false)
  continue (answered answer e) rest =
      let (e', answers, finished) = rest e in (e', answer ∷ answers, finished)

  pub run : (Engine → Event → Confirmed) → Engine → List Event → Engine × List Bool × Bool
  unfolding continue
  run on_event e [] = (e, [], true)
  run on_event e (v ∷ vs) = continue (on_event e v) (λ e'. run on_event e' vs)
