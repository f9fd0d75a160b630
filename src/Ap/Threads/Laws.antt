-- ===== src/Ap/Threads/Laws.antt =====
-- The two threads beside the rounds over messages.
use dlms_access_point.Prelude.{
  ℕ, zero, suc, Option-cases, inl, inr, map, ◌≡◌, refl, ap, ◌∙◌, some, List, [], ◌∷◌, arith, Text,
}
use dlms_access_point.Ap.Main.{Arrivals, deliver, size_at, deliver_all, Report}
use dlms_access_point.Ap.Server.{Server, Event, run}
use dlms_access_point.Ap.Server.Laws.{texts, run-Ran, Ran}
use dlms_access_point.Ap.Threads.{Segments, run_all, size_in, reading, interleaved_round}
use dlms_access_point.Client.Library.{Library}
use dlms_access_point.Client.Outcome.{Outcome, returned, thrown, unfinished, ◌>>=◌}
use dlms_access_point.Ap.Script.{MeterReading}
use dlms_access_point.Ap.Config.{Config, Payload, clear, count}
use dlms_access_point.Ap.Script.{run_script}
use dlms_access_point.Ap.Readings.{print_readings}
use mathlib.Core.Path.{fun_ext}
use dlms_access_point.Ap.Main as ApMain

-- The messages that the segments bring.
pub messages : Segments → Arrivals
messages g = record { early = texts g.early; before = texts g.before; during = map texts g.during }

run-cfg : (s s' : Server) (es : List Event) → run s es ≡ some s' → s'.cfg ≡ deliver s.cfg (texts es)
unfolding Ran
run-cfg s s' es h = (run-Ran s s' es h).0

run_all-cfg :
    (s s' : Server) (during : List (List Event))
    → run_all s during ≡ some s'
    → s'.cfg ≡ deliver_all s.cfg (map texts during)
unfolding run_all deliver_all
run_all-cfg s s' [] h = ground arith
run_all-cfg s s' (es ∷ during) h = elim (Option-cases (run s es)) [
  | inl n ↦ absurd (ground arith)
  | inr (m, q) ↦
      run_all-cfg m s' during (ground arith)
      ∙ ap (λ c. deliver_all c (map texts during)) (run-cfg s m es q)
]

size_in-size_at :
    (s s' : Server) (during : List (List Event)) (n : ℕ)
    → run_all s during ≡ some s'
    → size_in s during n ≡ size_at s.cfg (map texts during) n
unfolding run_all size_in size_at
size_in-size_at s s' [] n h = refl
size_in-size_at s s' (es ∷ during) zero h = elim (Option-cases (run s es)) [
  | inl n ↦ absurd (ground arith)
  | inr (m, q) ↦ rw (q, size_in) (ap (λ c. c.payload_size) (run-cfg s m es q))
]
size_in-size_at s s' (es ∷ during) (suc n) h = elim (Option-cases (run s es)) [
  | inl n ↦ absurd (ground arith)
  | inr (m, q) ↦
      rw (q, size_in)
        (size_in-size_at m s' during n (ground arith)
          ∙ ap (λ c. size_at c (map texts during) n) (run-cfg s m es q))
]

module _ (lib : Library) (unset : lib.Engine → Payload) where
  open lib use {Engine}

  -- What main sees of a round over messages, with the server as the round leaves it.
  abbrev pub served :
      Server → Outcome (Engine × Config × Report) → Outcome (Engine × Server × Report)
  served s (returned (e, c, report)) = returned (e, record s { cfg = c }, report)
  served s thrown = thrown
  served s unfinished = unfinished

  -- The script of a round over messages, from a configuration on.
  script : ℕ → Config → List (List Text) → ℕ → Engine → Outcome (Engine × Config × Report)
  script fuel c during counted e =
      run_script lib unset fuel (size_at c during) 0 c.meters e >>= λ r. returned (
        r.0,
        clear (deliver_all c during),
        record { counted = counted; printed = print_readings r.1 },
      )

  reading-script :
      (fuel : ℕ) (s s' : Server) (during : List (List Event)) (counted : ℕ) (e : Engine)
      → run_all s during ≡ some s'
      → reading lib unset fuel s during counted e
        ≡ some (served s' (script fuel s.cfg (map texts during) counted e))
  unfolding reading script ◌>>=◌
  reading-script fuel s s' during counted e h =
      let sizes = fun_ext (λ n. size_in-size_at s s' during n h) in
      rw (h, reading, sizes, script, run_all-cfg s s' during h)
        (go (run_script lib unset fuel (size_at s.cfg (map texts during)) 0 s.cfg.meters e))
    where
      go :
          (o : Outcome (Engine × List MeterReading))
          → let c = clear (deliver_all s.cfg (map texts during)) in
            some (
              o >>= λ r. returned (
                r.0,
                record s' { cfg = c },
                record { counted = counted; printed = print_readings r.1 },
              ))
            ≡ some (
                served s' (
                  o >>= λ r.
                  returned (r.0, c, record { counted = counted; printed = print_readings r.1 })))
      go (returned r) = refl
      go thrown = refl
      go unfinished = refl

  -- Any interleaving of the registration server's thread with the calls that main makes in a round,
  -- where the event loop can report the ends of operations so: main's round is the one in which the
  -- messages that were received arrive between the same calls, and beyond the configuration that this
  -- round leaves the server is as its own thread alone would leave it.
  pub interleaved_round-served :
      (fuel : ℕ) (s s1 s2 s3 : Server) (g : Segments) (e : Engine)
      → run s g.early ≡ some s1
      → run s1 g.before ≡ some s2
      → run_all s2 g.during ≡ some s3
      → interleaved_round lib unset fuel s g e
        ≡ some (served s3 (ApMain.round lib unset fuel s.cfg (messages g) e))
  unfolding interleaved_round ApMain.round script messages
  interleaved_round-served fuel s s1 s2 s3 g e h k l =
      let c1 = run-cfg s s1 g.early h in
      let c2 = run-cfg s1 s2 g.before k ∙ ap (λ c. deliver c (texts g.before)) c1 in
      rw (h, interleaved_round, k)
        (reading-script fuel s2 s3 g.during (count s1.cfg) e l
          ∙ ap (λ c. some (served s3 (script fuel c (map texts g.during) (count s1.cfg) e))) c2
          ∙ ap
              (λ c. some (
                served s3 (
                  script fuel (deliver (deliver s.cfg (texts g.early)) (texts g.before))
                    (map texts g.during) (count c) e)))
              c1)
