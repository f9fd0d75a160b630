-- ===== src/Ap/Config/Delivery.antt =====
-- The configuration over a history of connections, each of which is read once into a buffer of
-- `max_length` bytes.
use mathlib.Core.Path.{subst}
use dlms_access_point.Prelude.{
  ℕ, length, take, length-append, length-take, All, Text, ◌≤◌, ◌<◌, ◌≡◌, refl, ap, ◌≢◌, inl, inr,
  Bool, true, false, some, List, [], ◌∷◌, ◌++◌, arith,
}
use dlms_access_point.Ap.Config.{
  Config, Payload, small, medium, large, made, max_length, Made, range_error, out_of_fuel,
  construct, after, interpret, clear, handle_read, initial,
}
use dlms_access_point.Ap.Config.Parse.{print, separated, size_name, Reads, construct_sound}
use dlms_access_point.Ap.Config.RoundTrip.{from_hes, meterset-print}
use dlms_access_point.Hes.Message
use dlms_access_point.Hes.Message.{meterset}

-- What happens to the configuration: a read on a connection, or the call of `clear` in main.
pub data Event : Type 0 where
  reads : Bool → Text → ℕ → Event
  clears : Event

pub deliver : Config → Event → Config
deliver c (reads error buffer bytes_transferred) = handle_read c error buffer bytes_transferred
deliver c clears = clear c

pub run : Config → List Event → Config
run c [] = c
run c (e ∷ es) = run (deliver c e) es

-- A read fills at most the buffer.
abbrev IsBuffered : Event → Type 0
IsBuffered (reads error buffer bytes_transferred) = bytes_transferred ≤ max_length
IsBuffered clears = Unit

-- The configuration could have been read whole in one go.
abbrev Fits : Config → Type 0
Fits c = (p : Payload) → c.payload_size ≡ some p → length (print p c.meters) ≤ max_length

Reads-length :
    (s : Text) (c : Config) (p : Payload)
    → Reads s c
    → c.payload_size ≡ some p
    → length (print p c.meters) ≤ length s
Reads-length s c p (inl (nothing, unset, none_left)) h = absurd (ground arith)
Reads-length s c p (inr (q, e, inl whole)) h =
    let same : p ≡ q = ground arith in rw same (rw whole (omega arith))
Reads-length s c p (inr (q, e, inr whole)) h =
    let same : p ≡ q = ground arith in
    rw same (omega (arith, ap length whole, length-append (print q c.meters) (b',' ∷ [])))

length-take-le : (n : ℕ) (s : Text) → length (take n s) ≤ n
length-take-le n s = omega (arith, length-take n s)

after-Fits : (c : Config) (s : Text) → length s ≤ max_length → Fits c → Fits (interpret c s)
unfolding interpret
after-Fits c s short h = go (construct s) refl
  where
    go : (m : Made) → construct s ≡ m → Fits (after c m)
    go (made other) e = λ p q. omega (arith, Reads-length s other p (construct_sound s other e) q)
    go (range_error t) e = h
    go out_of_fuel e = h

deliver-Fits : (c : Config) (e : Event) → IsBuffered e → Fits c → Fits (deliver c e)
unfolding deliver handle_read size_name
deliver-Fits c (reads true buffer n) b h = h
deliver-Fits c (reads false buffer n) b h =
    after-Fits c (take n buffer) (omega (arith, length-take-le n buffer)) h
deliver-Fits c clears b h = unfold clear print separated in λ p e. length_size p
  where
    length_size : (p : Payload) → length (size_name p ++ []) ≤ max_length
    length_size small = omega arith
    length_size medium = omega arith
    length_size large = omega arith

run-Fits : (c : Config) (es : List Event) → All IsBuffered es → Fits c → Fits (run c es)
unfolding run
run-Fits c [] b h = h
run-Fits c (e ∷ es) b h = run-Fits (deliver c e) es b.1 (deliver-Fits c e b.0 h)

initial-Fits : Fits initial
unfolding initial print separated size_name
initial-Fits small h = omega arith
initial-Fits medium h = omega arith
initial-Fits large h = omega arith

-- A set of meters whose message is longer than the buffer never becomes the configuration, by any
-- history of connections and readings since the access point started, if no read returns more than
-- the buffer holds.
pub run-ne_of_long :
    (size : Message.Payload) (names : List Text) (es : List Event)
    → max_length < length (meterset size names)
    → All IsBuffered es
    → run initial es ≢ record { payload_size = some (from_hes size); meters = names }
run-ne_of_long size names es long b e =
    let whole : Fits (record { payload_size = some (from_hes size); meters = names }) =
      subst Fits e (run-Fits initial es b initial-Fits) in
    absurd (omega (arith, whole (from_hes size) refl, ap length (meterset-print size names), long))
