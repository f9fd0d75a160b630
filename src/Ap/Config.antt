-- ===== src/Ap/Config.antt =====
-- src/APsim.cpp, class Config: what the access point reads, and for which payload size, as it is
-- received from the head-end system. The mutex is left out: one call is one step.
pub mod Parse
pub mod RoundTrip
pub mod Delivery
mod Tests
use dlms_access_point.Prelude.{
  ℕ, leb, ◌==◌, if◌then◌else◌, length, take, Text, codes, text_eq, zero, suc, Bool, true, ◌&&◌,
  Option, none, some, List, [], ◌∷◌, ◌++◌,
}

pub data Payload : Type 0 where
  small medium large : Payload

-- `payload_size` is `none` where the source leaves it uninitialised.
pub record Config : Type 0 where
  pub payload_size : Option Payload
  pub meters : List Text

-- The constructor's outcome. The loop of the model runs on fuel.
pub data Made : Type 0 where
  made : Config → Made
  range_error : Text → Made
  out_of_fuel : Made

-- `isprint` in the C locale.
isprint : ℕ → Bool
isprint c = leb 0x20 c && leb c 0x7e

unfoldable pub all_of_isprint : Text → Bool
unfolding isprint
all_of_isprint [] = true
all_of_isprint (c ∷ s) = isprint c && all_of_isprint s

-- The characters before the first comma, and those behind it.
pub cut : Text → Text × Text
cut [] = ([], [])
cut (c ∷ s) = let (item, rest) = cut s in if c == b',' then ([], s) else (c ∷ item, rest)

-- `std::getline(ss, item, ',')` on the characters that are left: it fails where there are none.
pub getline : Text → Option (Text × Text)
unfolding cut
getline [] = none
getline (c ∷ s) = some (cut (c ∷ s))

-- `while (std::getline(ss, item, ','))`.
pub read_items : ℕ → Text → List Text → Option (List Text)
read_items zero s items = none
read_items (suc fuel) s items = elim (getline s) [
  | none ↦ some items
  | some (item, rest) ↦ read_items fuel rest (items ++ item ∷ [])
]

-- The chain of comparisons on `plsize`.
pub payload_of : Text → Option Payload
payload_of plsize =
    if text_eq plsize (codes "small")
    then some small
    else if text_eq plsize (codes "medium")
    then some medium
    else if text_eq plsize (codes "large")
    then some large
    else none

choose_payload : Option Payload → List Text → Made
choose_payload none items = range_error (codes "invalid Payload size")
choose_payload (some p) items = made (record { payload_size = some p; meters = items })

pub finish : Text → Option (List Text) → Made
unfolding choose_payload
finish plsize none = out_of_fuel
finish plsize (some items) = choose_payload (payload_of plsize) items

-- `Config(const std::string& data)`. Each round of the loop takes a character, so the fuel is more
-- than it can use.
pub construct : Text → Made
unfolding finish
construct input =
    if all_of_isprint input
    then elim (getline input) [
      | none ↦ made (record { payload_size = none; meters = [] })
      | some (plsize, rest) ↦ finish plsize (read_items (suc (length rest)) rest [])
    ]
    else range_error (codes "invalid string")

-- The two swaps; the handler of the exception prints and leaves the configuration.
after : Config → Made → Config
after c (made other) = other
after c (range_error e) = c
after c out_of_fuel = c

pub interpret : Config → Text → Config
unfolding after
interpret c input = after c (construct input)

unfoldable pub clear : Config → Config
clear c = record c { meters = [] }

unfoldable pub count : Config → ℕ
count c = length c.meters

-- `tcp_connection::data_` holds so many bytes.
abbrev pub max_length : ℕ
max_length = 1024

-- `tcp_connection::handle_read`: the only read on a connection.
unfoldable pub handle_read : Config → Bool → Text → ℕ → Config
handle_read c error buffer bytes_transferred =
    if error then c else interpret c (take bytes_transferred buffer)

-- `Config cfg("small,")` in main.
pub initial : Config
initial = record { payload_size = some small; meters = [] }
