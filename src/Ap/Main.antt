-- ===== src/Ap/Main.antt =====
-- src/APsim.cpp, main: the rounds of the access point, with the messages that the registration
-- server takes in meanwhile. The configuration's mutex makes each of its calls one step, so a round
-- is fixed by what arrives between its calls.
pub mod Laws
mod Tests
use dlms_access_point.Prelude.{
  ℕ, zero, suc, Text, Option, List, [], ◌∷◌, ◌==◌, if◌then◌else◌, length,
}
use dlms_access_point.Client.Library.{Library}
use dlms_access_point.Client.Outcome.{Outcome, returned, ◌>>=◌}
use dlms_access_point.Ap.Config.{Config, Payload, interpret, clear, count, initial}
use dlms_access_point.Ap.Script.{run_script}
use dlms_access_point.Ap.Readings.{print_readings}

-- The messages before `count`, between it and the copy of the meters, and then those before the
-- payload size is asked for each meter in turn; what is behind the last meter arrives before `clear`.
pub record Arrivals : Type 0 where
  pub early : List Text
  pub before : List Text
  pub during : List (List Text)

unfoldable pub deliver : Config → List Text → Config
deliver c [] = c
deliver c (m ∷ ms) = deliver (interpret c m) ms

-- The payload size that the round of the script for meter `n` is told.
unfoldable pub size_at : Config → List (List Text) → ℕ → Option Payload
unfolding deliver
size_at c [] n = c.payload_size
size_at c (ms ∷ during) zero = (deliver c ms).payload_size
size_at c (ms ∷ during) (suc n) = size_at (deliver c ms) during n

unfoldable pub deliver_all : Config → List (List Text) → Config
unfolding deliver
deliver_all c [] = c
deliver_all c (ms ∷ during) = deliver_all (deliver c ms) during

-- What a round prints: the number of meters, and the readings.
pub record Report : Type 0 where
  pub counted : ℕ
  pub printed : Text

-- `unset` is what a payload size that was never set is found to be.
module _ (lib : Library) (unset : lib.Engine → Payload) where
  open lib use {Engine}

  -- The body of the loop of main, but for the sleep.
  unfoldable pub round : ℕ → Config → Arrivals → Engine → Outcome (Engine × Config × Report)
  round fuel c a e =
      let counting = deliver c a.early in
      let reading = deliver counting a.before in
      run_script lib unset fuel (size_at reading a.during) 0 reading.meters e >>= λ r. returned (
        r.0,
        clear (deliver_all reading a.during),
        record { counted = count counting; printed = print_readings r.1 },
      )

  -- What `while (1)` has done after as many rounds as there are arrivals.
  pub run : ℕ → Config → List Arrivals → Engine → Outcome (Engine × Config × List Report)
  unfolding round
  run fuel c [] e = returned (e, c, [])
  run fuel c (a ∷ rest) e = round fuel c a e >>= λ (e', c', report).
      run fuel c' rest e' >>= λ (e'', c'', reports). returned (e'', c'', report ∷ reports)

  -- `main`, by its arguments: 1 with a line on the standard error, or the rounds.
  pub data Main : Type 0 where
    usage : Main
    rounds : Outcome (Engine × Config × List Report) → Main

  main : ℕ → List Text → List Arrivals → Engine → Main
  unfolding run
  main fuel argv arrivals e =
      if length argv == 2 then rounds (run fuel initial arrivals e) else usage
