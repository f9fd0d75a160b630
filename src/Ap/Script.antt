-- ===== src/Ap/Script.antt =====
-- src/APsim.cpp, runScript: one session with each registered meter, and its reading.
pub mod Laws
mod Tests
use dlms_access_point.Prelude.{ℕ, Text, codes, ◌+◌, Option, none, some, List, [], ◌∷◌}
use dlms_access_point.Client.Library.{Library}
use dlms_access_point.Client.Outcome.{Outcome, returned, ◌>>=◌}
use dlms_access_point.Client.Session.{construct, destruct, open_session, close, get}
use dlms_access_point.Ap.Config.{Payload, small, medium, large}

pub record MeterReading : Type 0 where
  pub meter_addr : Text
  pub meter_data : Text

-- The `switch` on the payload size; its default also takes a value that is none of the three.
unfoldable pub obis_of : Payload → Text
obis_of small = codes "0-0:96.1.0*255"
obis_of medium = codes "0-0:96.1.4*255"
obis_of large = codes "0-0:96.1.9*255"

-- `unset e` is what the program finds, when the engine is `e`, in a payload size that was never set:
-- any value, which the `switch` may take for any of the three.
module _ (lib : Library) (unset : lib.Engine → Payload) where
  open lib use {Engine}

  -- The value of a payload size.
  size_of : Option Payload → Engine → Payload
  size_of none e = unset e
  size_of (some size) e = size

  -- The body of the loop.
  pub visit : ℕ → Text → Option Payload → Engine → Outcome (Engine × MeterReading)
  visit fuel metername size e = open_session lib fuel (construct lib metername e) >>= λ o.
      get lib o.1 1 2 (obis_of (size_of size o.1.engine)) >>= λ g. close lib g.1 >>= λ c.
      destruct lib c.1 >>= λ s.
      returned (s.engine, record { meter_addr = metername; meter_data = lib.recent c.1.engine })

  -- The loop over the copy of the meters. The payload size is asked anew in each round: `size_at n`
  -- is what it is in round `n`.
  unfoldable pub run_script :
      ℕ → (ℕ → Option Payload) → ℕ → List Text → Engine → Outcome (Engine × List MeterReading)
  run_script fuel size_at n [] e = returned (e, [])
  run_script fuel size_at n (metername ∷ meters) e = visit fuel metername (size_at n) e >>= λ v.
      run_script fuel size_at (n + 1) meters v.0 >>= λ r. returned (r.0, v.1 ∷ r.1)
