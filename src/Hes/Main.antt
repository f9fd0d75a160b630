-- ===== src/Hes/Main.antt =====
-- Function main of src/HESsim.cpp: the loop of the head-end system.
pub mod Laws
mod Tests
use dlms_access_point.Prelude.{
  ℕ, if◌then◌else◌, Text, length, codes, Bool, true, false, List, [], ◌∷◌, ◌++◌,
}
use dlms_access_point.Client.Library.{Library}
use dlms_access_point.Client.Outcome.{Outcome, either}
use dlms_access_point.Console.Number.{to_string}
use dlms_access_point.Hes.Config.{HesConfig}
use dlms_access_point.Hes.Message.{meterset}
use dlms_access_point.Hes.Registration.{register_all}
use dlms_access_point.Hes.Script.{run_script}

-- What happens before a round: the meters that connect, and the settings that the web server has
-- loaded. `reached` is whether asio resolves the access point's address, connects and writes; where
-- it does not, it throws.
pub record Arrival : Type 0 where
  pub remotes : List Text
  pub cfg : HesConfig
  pub reached : Bool

verdict : Bool → Text
verdict true = codes "sucess!\n"
verdict false = codes "Failed!\n"

pub there_are : List Text → Text
there_are meters = codes "There are " ++ (to_string (length meters) ++ codes " registered meters\n")

module _ (lib : Library) where
  open lib use {Engine}

  -- `written` holds the messages that the access point has been sent, `output` what main itself has
  -- printed; C++11 leaves open whether a round that throws has printed its heading.
  pub record Hes : Type 0 where
    pub engine : Engine
    pub meters : List Text
    pub written : List Text
    pub output : List Text

  unfoldable pub new : Engine → Hes
  new e = record { engine = e; meters = []; written = []; output = [] }

  -- The loop goes on, or an exception leaves main, or the fuel of an `open` has run out.
  pub data Round : Type 0 where
    going interrupted : Hes → Round
    unfinished : Round

  -- runScript, and what is printed of it; the exception of a poll leaves main.
  processed : Hes → Outcome (Engine × Bool) → Round
  unfolding verdict either
  processed h o =
      either
        (λ (e, result). going (record h {
          engine = e;
          output = h.output ++ codes "Processing\n" ∷ verdict result ∷ [];
        }))
        (interrupted h) unfinished o

  -- multiRead, with the message in place of the connection.
  pub multi_read : Hes → Arrival → Round
  unfolding verdict
  multi_read h a =
      if a.reached
      then going (record h {
        written = h.written ++ meterset a.cfg.payload_size h.meters ∷ [];
        output = h.output ++ codes "Multiread\n" ∷ verdict true ∷ [];
      })
      else interrupted h

  -- The body of the loop, but for the sleep.
  unfoldable pub round : ℕ → Hes → Arrival → Round
  unfolding processed multi_read there_are
  round fuel h a =
      let meters = register_all h.meters a.remotes in
      let h' = record h { meters = meters; output = h.output ++ there_are meters ∷ [] } in
      if a.cfg.route_only
      then processed h' (run_script lib fuel (λ _. a.cfg.payload_size) 0 meters true h.engine)
      else multi_read h' a

  unfoldable pub run : ℕ → Hes → List Arrival → Round
  unfolding round
  run fuel h [] = going h
  run fuel h (a ∷ later) = elim (round fuel h a) [
    | going h' ↦ run fuel h' later
    | interrupted h' ↦ interrupted h'
    | unfinished ↦ unfinished
  ]

-- main without an argument, or with more than one.
pub data Started : Type 0 where
  usage : Started
  serves : Text → Started

main : List Text → Started
main [] = usage
main (program ∷ []) = usage
main (program ∷ apaddress ∷ []) = serves apaddress
main (program ∷ apaddress ∷ more ∷ args) = usage
