-- ===== src/Hes/Script.antt =====
-- src/HESsim.cpp, runScript: the head-end system's own session with each registered meter.
pub mod Laws
mod Tests
use dlms_access_point.Prelude.{ℕ, Text, codes, Bool, true, ◌&&◌, List, [], ◌∷◌, ◌+◌}
use dlms_access_point.Client.Library.{Library}
use dlms_access_point.Client.Outcome.{Outcome, returned, ◌>>=◌}
use dlms_access_point.Client.Session.{
  construct, destruct, open_session, close, get, service_connect,
}
use dlms_access_point.Hes.Message.{Payload, small, medium, large}

-- The `switch` on the payload size.
unfoldable pub obis_of : Payload → Text
obis_of small = codes "0-0:96.1.0*255"
obis_of medium = codes "0-0:96.1.4*255"
obis_of large = codes "0-0:96.1.9*255"

module _ (lib : Library) where
  open lib use {Engine}

  -- The body of the loop, with the three answers that go into the result.
  pub visit : ℕ → Text → Payload → Engine → Outcome (Engine × (Bool × Bool × Bool))
  unfolding obis_of
  visit fuel metername size e = open_session lib fuel (construct lib metername e) >>= λ o.
      service_connect lib o.1 true >>= λ reconnected.
      get lib reconnected.1 8 2 (codes "0-0:1.0.0*255") >>= λ time.
      get lib time.1 1 2 (obis_of size) >>= λ payload. close lib payload.1 >>= λ c.
      destruct lib c.1 >>= λ s. returned (s.engine, (reconnected.0, time.0, payload.0))

  -- The loop; the payload size is asked anew in each round, and `result` is what it is so far.
  pub run_script : ℕ → (ℕ → Payload) → ℕ → List Text → Bool → Engine → Outcome (Engine × Bool)
  unfolding visit
  run_script fuel size_at n [] result e = returned (e, result)
  run_script fuel size_at n (metername ∷ meters) result e =
      visit fuel metername (size_at n) e >>= λ v.
      run_script fuel size_at (n + 1) meters (result && v.1.0 && v.1.1 && v.1.2) v.0
