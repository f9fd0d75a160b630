-- ===== src/Ap/Main/Laws.antt =====
-- Which meters a round reads, and which messages are lost.
use dlms_access_point.Prelude.{◌∷◌, ℕ, Text, ◌≤◌, ◌≡◌, refl, true, List, [], map, Option}
use mathlib.Core.Path.{subst}
use dlms_access_point.Client.Library.{Library}
use dlms_access_point.Client.Outcome.{returned, ◌>>=◌, Ends, Ends-bind, Ends-map}
use dlms_access_point.Client.Session.Open.{Throws}
use dlms_access_point.Client.Session.{Session, max_tries, is_linked, associated}
use dlms_access_point.Ap.Config.{Config, Payload, clear, count}
use dlms_access_point.Ap.Script.{MeterReading, run_script}
use dlms_access_point.Ap.Script.Laws.{run_script-Ends}
use dlms_access_point.Ap.Readings.{print_readings}
use dlms_access_point.Ap.Main.{Arrivals, deliver, size_at, deliver_all, round, run, Report}

-- The configuration after a round.
pub after_round : Config → Arrivals → Config
after_round c a = clear (deliver_all (deliver (deliver c a.early) a.before) a.during)

-- The reports of the rounds, each over what the one before has left.
unfoldable pub Reported : Config → List Arrivals → List Report → Type 0
Reported c [] [] = Unit
Reported c [] (r ∷ rs) = ⊥
Reported c (a ∷ rest) [] = ⊥
Reported c (a ∷ rest) (r ∷ rs) =
    (r.counted ≡ count (deliver c a.early))
    × ((readings : List MeterReading) × (r.printed ≡ print_readings readings)
        × (map (λ m. m.meter_addr) readings ≡ (deliver (deliver c a.early) a.before).meters))
    × Reported (after_round c a) rest rs

module _ (lib : Library) (unset : lib.Engine → Payload) where
  open lib use {Engine}

  -- A round in which nothing arrives before its copy of the meters.
  abbrev pub quiet : List (List Text) → Arrivals
  quiet during = record { early = []; before = []; during = during }

  round-quiet :
      (fuel : ℕ) (size : Option Payload) (during : List (List Text)) (e : Engine)
      → let c : Config = record { payload_size = size; meters = [] } in
        round lib unset fuel c (quiet during) e
        ≡ returned
            (e, clear (deliver_all c during), record { counted = 0; printed = print_readings [] })
  unfolding round deliver run_script count ◌>>=◌
  round-quiet fuel size during e = refl

  -- What a round leaves, and its report.
  abbrev pub RoundReported : Config → Arrivals → Engine × Config × Report → Type 0
  RoundReported c a (e', c', report) =
      (c' ≡ after_round c a)
      × (report.counted ≡ count (deliver c a.early))
      × ((readings : List MeterReading) × (report.printed ≡ print_readings readings)
          × (map (λ m. m.meter_addr) readings ≡ (deliver (deliver c a.early) a.before).meters))

  module _
      (kept : (s : Session lib) → is_linked lib s ≡ true → is_linked lib (associated lib s) ≡ true)
      (fuel : ℕ) (enough : max_tries ≤ fuel) where
    pub round-Reported :
        (c : Config) (a : Arrivals) (e : Engine)
        → Ends (Throws lib) (RoundReported c a) (round lib unset fuel c a e)
    unfolding round after_round
    round-Reported c a e =
        let reading = deliver (deliver c a.early) a.before in
        Ends-bind (Throws lib) (λ r. map (λ m. m.meter_addr) r.1 ≡ reading.meters)
          (RoundReported c a)
          (run_script lib unset fuel (size_at reading a.during) 0 reading.meters e) _
          (run_script-Ends lib unset kept fuel enough (size_at reading a.during) 0 reading.meters e)
          λ r named. (refl, refl, (r.1, refl, named))

    -- Where opening an association leaves the transport connected, a round ends (with at least
    -- `max_tries` of fuel for each `open`): it is left by the exception of a poll, or it counts the
    -- meters that its early messages leave and prints one reading for each of the meters that the
    -- messages before it left, in their order, whatever arrives while it reads. If nothing arrives
    -- before the next round, that one ends without a poll and reads no meter, also where meters
    -- arrived during the first.
    pub round-round :
        (c : Config) (a : Arrivals) (later : List (List Text)) (e : Engine)
        → Ends
            (Throws lib)
            (λ (e', c', report).
              RoundReported c a (e', c', report)
              × (round lib unset fuel c' (quiet later) e'
                  ≡ returned (
                    e',
                    clear (deliver_all c' later),
                    record { counted = 0; printed = print_readings [] },
                  )))
            (round lib unset fuel c a e)
    unfolding after_round clear
    round-round c a later e =
        Ends-map (Throws lib) (RoundReported c a) _ (round lib unset fuel c a e)
          (round-Reported c a e) λ (e', c', report) h. (h, again e' c' h.0)
      where
        again :
            (e' : Engine) (c' : Config)
            → c' ≡ after_round c a
            → round lib unset fuel c' (quiet later) e'
              ≡ returned (
                e',
                clear (deliver_all c' later),
                record { counted = 0; printed = print_readings [] },
              )
        again e' c' h = rw (h) (
            round-quiet fuel
              (deliver_all (deliver (deliver c a.early) a.before) a.during).payload_size later e')

    -- Where opening an association leaves the transport connected, the loop of the access point ends
    -- each round (with at least `max_tries` of fuel for each `open`), whatever the meters do and
    -- whatever arrives: the exception of a poll leaves it, or after any number of rounds there is one
    -- report for each. It counts the meters that the round's early messages leave of the cleared
    -- configuration before it, and prints one reading for each meter of the configuration that the
    -- round then copies, in their order.
    pub run-Reported :
        (c : Config) (arrivals : List Arrivals) (e : Engine)
        → Ends (Throws lib) (λ r. Reported c arrivals r.2) (run lib unset fuel c arrivals e)
    unfolding run Reported
    run-Reported c [] e = tt
    run-Reported c (a ∷ rest) e =
        Ends-bind (Throws lib) (RoundReported c a) (λ r. Reported c (a ∷ rest) r.2)
          (round lib unset fuel c a e) _ (round-Reported c a e)
          λ (e', c', report) (next, counted, read).
            Ends-bind (Throws lib) (λ r. Reported c' rest r.2) (λ r. Reported c (a ∷ rest) r.2)
              (run lib unset fuel c' rest e') _ (run-Reported c' rest e')
              λ r reported. (counted, read, subst (λ x. Reported x rest r.2) next reported)
