-- ===== src/Ap/Threads.antt =====
-- src/APsim.cpp, main and regs at once: the loop of main and the registration server as two threads
-- over one configuration. The mutex makes each call of the configuration one step, so what the
-- server's thread does in a round of main falls between main's calls.
pub mod Laws
mod Tests
use dlms_access_point.Prelude.{ℕ, zero, suc, Option, none, some, List, [], ◌∷◌}
use dlms_access_point.Client.Library.{Library}
use dlms_access_point.Client.Outcome.{Outcome, returned, ◌>>=◌}
use dlms_access_point.Ap.Config.{Payload, clear, count}
use dlms_access_point.Ap.Main.{Report}
use dlms_access_point.Ap.Readings.{print_readings}
use dlms_access_point.Ap.Script.{run_script}
use dlms_access_point.Ap.Server.{Server, Event, run}

-- What the event loop reports before `count`, between it and the copy of the meters, and then before
-- the payload size is asked for each meter in turn.
pub record Segments : Type 0 where
  pub early : List Event
  pub before : List Event
  pub during : List (List Event)

pub run_all : Server → List (List Event) → Option Server
run_all s [] = some s
run_all s (es ∷ during) = elim (run s es) [ none ↦ none | some s' ↦ run_all s' during ]

-- The payload size that the round of the script for meter `n` is told.
pub size_in : Server → List (List Event) → ℕ → Option Payload
size_in s [] n = s.cfg.payload_size
size_in s (es ∷ during) zero = elim (run s es) [
  | none ↦ s.cfg.payload_size
  | some s' ↦ s'.cfg.payload_size
]
size_in s (es ∷ during) (suc n) = elim (run s es) [
  | none ↦ s.cfg.payload_size
  | some s' ↦ size_in s' during n
]

module _ (lib : Library) (unset : lib.Engine → Payload) where
  open lib use {Engine}

  -- A round from the server as it is when the script starts, with the number of meters counted.
  reading :
      ℕ → Server → List (List Event) → ℕ → Engine → Option (Outcome (Engine × Server × Report))
  unfolding run_all size_in
  reading fuel s during counted e = elim (run_all s during) [
    | none ↦ none
    | some s' ↦ some (
        run_script lib unset fuel (size_in s during) 0 s.cfg.meters e >>= λ r. returned (
          r.0,
          record s' { cfg = clear s'.cfg },
          record { counted = counted; printed = print_readings r.1 },
        ))
  ]

  -- The body of main's loop; `none` where the event loop cannot report so.
  pub interleaved_round :
      ℕ → Server → Segments → Engine → Option (Outcome (Engine × Server × Report))
  unfolding reading
  interleaved_round fuel s g e = elim (run s g.early) [
    | none ↦ none
    | some s1 ↦ elim (run s1 g.before) [
      | none ↦ none
      | some s2 ↦ reading fuel s2 g.during (count s1.cfg) e
    ]
  ]
