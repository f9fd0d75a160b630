-- ===== src/Ap/Config/RoundTrip.antt =====
-- What the head-end system writes is what the access point reads.
use dlms_access_point.Prelude.{
  ℕ, All, Text, codes, ◌≡◌, refl, sym, ◌∙◌, ◌≢◌, true, some, List, [], ◌∷◌, ◌++◌, append_assoc,
  append-nil, arith,
}
use dlms_access_point.Ap.Config.{
  Config, Payload, small, medium, large, made, all_of_isprint, cut, interpret, payload_of, finish,
}
use dlms_access_point.Hes.Message
use dlms_access_point.Hes.Message.{meterset}
use dlms_access_point.Ap.Config.Parse.{parse, split, separated, construct-parse, print}

-- A meter name that the comma-separated message can carry: printable, with no comma, not empty.
abbrev pub IsName : Text → Type 0
IsName s = (s ≢ []) × All (λ c. c ≢ b',') s × (all_of_isprint s ≡ true)

-- The two enumerations have the same values.
abbrev pub from_hes : Message.Payload → Payload
from_hes Message.Payload.small = small
from_hes Message.Payload.medium = medium
from_hes Message.Payload.large = large

accumulate-separated :
    (init : Text) (names : List Text) → Message.accumulate init names ≡ init ++ separated names
unfolding Message.accumulate separated
accumulate-separated init [] = sym (append-nil init)
accumulate-separated init (name ∷ names) =
    accumulate-separated (init ++ (b',' ∷ name)) names
    ∙ append_assoc init (b',' ∷ name) (separated names)

pub meterset-print :
    (size : Message.Payload) (names : List Text) → meterset size names ≡ print (from_hes size) names
unfolding meterset print
meterset-print Message.Payload.small names = accumulate-separated (codes "small") names
meterset-print Message.Payload.medium names = accumulate-separated (codes "medium") names
meterset-print Message.Payload.large names = accumulate-separated (codes "large") names

cut-separated :
    (t : Text) (names : List Text)
    → All (λ c. c ≢ b',') t
    → cut (t ++ separated names) ≡ (t, (cut (separated names)).1)
unfolding cut separated
cut-separated [] [] h = refl
cut-separated [] (name ∷ names) h = ground arith
cut-separated (c ∷ t) names h = ground (arith, cut-separated t names h.1)

split-separated :
    (c : ℕ) (t : Text) (names : List Text)
    → All (λ c. c ≢ b',') (c ∷ t)
    → All IsName names
    → split ((c ∷ t) ++ separated names) ≡ (c ∷ t) ∷ names
unfolding split separated
split-separated c [] [] h hs = ground arith
split-separated c [] ([] ∷ names) h hs = absurd (hs.0.0 refl)
split-separated c [] ((d ∷ name) ∷ names) h hs =
    ground (arith, split-separated d name names hs.0.1 hs.1)
split-separated c (d ∷ t) names h hs = ground (arith, split-separated d t names h.1 hs)

split-cut-separated :
    (names : List Text) → All IsName names → split (cut (separated names)).1 ≡ names
unfolding cut separated
split-cut-separated [] hs = unfold split in refl
split-cut-separated ([] ∷ names) hs = absurd (hs.0.0 refl)
split-cut-separated ((c ∷ name) ∷ names) hs = split-separated c name names hs.0.1 hs.1

all_of_isprint-append :
    (s t : Text)
    → all_of_isprint s ≡ true
    → all_of_isprint t ≡ true
    → all_of_isprint (s ++ t) ≡ true
unfolding all_of_isprint
all_of_isprint-append [] t hs ht = ht
all_of_isprint-append (c ∷ s) t hs ht = ground (arith, all_of_isprint-append s t)

all_of_isprint-separated :
    (names : List Text) → All IsName names → all_of_isprint (separated names) ≡ true
unfolding separated all_of_isprint
all_of_isprint-separated [] hs = refl
all_of_isprint-separated (name ∷ names) hs =
    all_of_isprint-append name (separated names) hs.0.2 (all_of_isprint-separated names hs.1)

parse-append :
    (c : ℕ) (t : Text) (p : Payload) (names : List Text)
    → payload_of (c ∷ t) ≡ some p
    → All (λ x. x ≢ b',') (c ∷ t)
    → all_of_isprint (c ∷ t) ≡ true
    → All IsName names
    → parse ((c ∷ t) ++ separated names) ≡ made (record { payload_size = some p; meters = names })
unfolding parse finish
parse-append c t p names size plain prints hs = rw (
  cut-separated (c ∷ t) names plain,
  all_of_isprint-append (c ∷ t) (separated names) prints (all_of_isprint-separated names hs),
  split-cut-separated names hs,
  size,
)

parse-print :
    (p : Payload) (names : List Text)
    → All IsName names
    → parse (print p names) ≡ made (record { payload_size = some p; meters = names })
unfolding print payload_of all_of_isprint
parse-print small names hs = parse-append b's' (codes "mall") small names refl (omega arith) refl hs
parse-print medium names hs =
    parse-append b'm' (codes "edium") medium names refl (omega arith) refl hs
parse-print large names hs = parse-append b'l' (codes "arge") large names refl (omega arith) refl hs

-- The message in which the head-end system names its meters is read back by the access point as
-- that payload size and those meters in that order, whatever it was configured to before, if each
-- name is printable, not empty and without a comma.
pub interpret-meterset :
    (c : Config) (size : Message.Payload) (names : List Text)
    → All IsName names
    → interpret c (meterset size names)
      ≡ record { payload_size = some (from_hes size); meters = names }
unfolding interpret
interpret-meterset c size names hs =
    rw (meterset-print size names, construct-parse, parse-print (from_hes size) names hs)
