-- ===== src/System/Rounds.antt =====
-- src/HESsim.cpp and src/APsim.cpp together, round after round: the access point takes in the messages
-- that the head-end system writes, one in each of its rounds.
mod Tests
use dlms_access_point.Prelude.{
  Text, length, map, ◌≡◌, List, [], ◌∷◌, ◌++◌, length-map, All, ◌∙◌, ap, sym, ◌≤◌, take, take_all,
  refl, false,
}
use dlms_access_point.Ap.Script.{MeterReading}
use dlms_access_point.Ap.Readings.{print_readings}
use dlms_access_point.Ap.Main.{Arrivals, Report, deliver}
use dlms_access_point.Hes.Main.{Arrival}
use dlms_access_point.Hes.Registration.Laws.{contains, Ordered, interpret-register_all}
use dlms_access_point.Client.Library.{Library}
use dlms_access_point.Client.Session.{Session}
use dlms_access_point.Ap.Config.{Config, max_length, interpret, count, handle_read}
use dlms_access_point.Ap.Config.RoundTrip.{IsName}
use dlms_access_point.Ap.Main as ApMain
use dlms_access_point.Hes.Message.{meterset}
use dlms_access_point.Hes.Main as HesMain
use dlms_access_point.Hes.Registration.{register_all}

-- What the only read of a connection finds of a message, if it finds all that the buffer has room for.
pub received : Text → Text
received message = take max_length message

-- So the configuration takes in what that read hands over.
handle_read-received :
    (c : Config) (message : Text)
    → handle_read c false message max_length ≡ deliver c (received message ∷ [])
unfolding handle_read deliver received
handle_read-received c message = refl

pub received-le : (message : Text) → length message ≤ max_length → received message ≡ message
unfolding received
received-le message h = take_all max_length message h

-- One message at the start of each round, and anything while the round reads.
pub arrivals : List Text → List (List (List Text)) → List Arrivals
arrivals [] during = []
arrivals (m ∷ ms) [] = record { early = m ∷ []; before = []; during = [] } ∷ arrivals ms []
arrivals (m ∷ ms) (d ∷ during) =
    record { early = m ∷ []; before = []; during = d } ∷ arrivals ms during

-- The report of a round that reads exactly these meters, each once and in order.
pub ReadsAll : List Text → Report → Type 0
ReadsAll names r =
    (readings : List MeterReading) × (r.printed ≡ print_readings readings)
    × (r.counted ≡ length readings)
    × Ordered (map (λ m. m.meter_addr) readings)
    × ((j : Text) → contains (map (λ m. m.meter_addr) readings) j ≡ contains names j)

-- One report for each round, of the meters that have connected until then.
pub Reports : List Text → List Arrival → List Report → Type 0
Reports known [] [] = Unit
Reports known [] (r ∷ rs) = ⊥
Reports known (a ∷ later) [] = ⊥
Reports known (a ∷ later) (r ∷ rs) =
    ReadsAll (known ++ a.remotes) r × Reports (known ++ a.remotes) later rs

pub ReadsAll-interpret :
    (c : Config) (a : Arrival) (known : List Text) (r : Report)
    → All IsName known
    → let c' = interpret c (meterset a.cfg.payload_size (register_all [] known)) in
      r.counted ≡ count c'
      → ((readings : List MeterReading) × (r.printed ≡ print_readings readings)
          × (map (λ m. m.meter_addr) readings ≡ c'.meters))
      → ReadsAll known r
unfolding ReadsAll count
ReadsAll-interpret c a known r names counted (readings, printed, named) = (
  readings,
  printed,
  counted ∙ ap length (sym named) ∙ length-map (λ m. m.meter_addr) readings,
  rw named (interpret-register_all c a.cfg.payload_size known [] names).1,
  λ j. rw named (interpret-register_all c a.cfg.payload_size known j names).2,
)
