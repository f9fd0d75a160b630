-- ===== src/Ap/Script/Laws.antt =====
-- A script ends, and reads each meter once.
use mathlib.Core.Path.{ap₂}
use dlms_access_point.Prelude.{ℕ, Text, ◌+◌, ◌≤◌, ◌≡◌, refl, true, Option, List, [], ◌∷◌, map}
use dlms_access_point.Client.Library.{Library}
use dlms_access_point.Client.Outcome.{Ends, Ends-bind}
use dlms_access_point.Client.Session.{
  Session, max_tries, construct, destruct, get, close, open_session, is_linked, associated,
}
use dlms_access_point.Client.Session.Open.{Throws, open_session-Ends}
use dlms_access_point.Client.Session.Requests.{get-Ends, close-Ends, destruct-Ends}
use dlms_access_point.Ap.Config.{Payload}
use dlms_access_point.Ap.Script.{visit, run_script}

module _ (lib : Library) (unset : lib.Engine → Payload) where
  open lib use {Engine}

  module _
      (kept : (s : Session lib) → is_linked lib s ≡ true → is_linked lib (associated lib s) ≡ true)
      (fuel : ℕ) (enough : max_tries ≤ fuel) where
    visit-Ends :
        (metername : Text) (size : Option Payload) (e : Engine)
        → Ends
            (Throws lib)
            (λ v. v.1.meter_addr ≡ metername)
            (visit lib unset fuel metername size e)
    unfolding visit
    visit-Ends metername size e =
        Ends-bind (Throws lib) (λ r. Unit) _ (open_session lib fuel (construct lib metername e)) _
          (open_session-Ends lib kept fuel (construct lib metername e) enough)
          λ o _.
            Ends-bind (Throws lib) (λ r. Unit) _ (get lib o.1 1 2 _) _ (get-Ends lib o.1 1 2 _)
              λ g _.
                Ends-bind (Throws lib) (λ r. Unit) _ (close lib g.1) _ (close-Ends lib g.1)
                  λ c _.
                    Ends-bind (Throws lib) (λ r. Unit) _ (destruct lib c.1) _
                      (destruct-Ends lib c.1) λ s _. refl

    -- Where opening an association leaves the transport connected, a script ends (with at least
    -- `max_tries` of fuel for each `open`) whatever the meters do, also those that never answer: it
    -- is left by the exception of a poll, or its readings name the meters that it was given, each
    -- once and in their order.
    pub run_script-Ends :
        (size_at : ℕ → Option Payload) (n : ℕ) (meters : List Text) (e : Engine)
        → Ends
            (Throws lib)
            (λ r. map (λ m. m.meter_addr) r.1 ≡ meters)
            (run_script lib unset fuel size_at n meters e)
    unfolding run_script
    run_script-Ends size_at n [] e = refl
    run_script-Ends size_at n (metername ∷ meters) e =
        Ends-bind (Throws lib) (λ v. v.1.meter_addr ≡ metername) _
          (visit lib unset fuel metername (size_at n) e) _ (visit-Ends metername (size_at n) e)
          λ v named.
            Ends-bind (Throws lib) (λ r. map (λ m. m.meter_addr) r.1 ≡ meters) _
              (run_script lib unset fuel size_at (n + 1) meters v.0) _
              (run_script-Ends size_at (n + 1) meters v.0) λ r others. ap₂ ◌∷◌ named others
