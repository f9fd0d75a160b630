-- ===== src/Ap/Readings/RoundTrip.antt =====
-- The printed readings, read back.
use dlms_access_point.Prelude.{
  ℕ, ◌==◌, if◌then◌else◌, All, Text, codes, ◌≡◌, refl, ◌≢◌, Option, none, some, [], ◌∷◌, ◌++◌,
  arith, length, text_eq, zero, suc, ◌<◌, ◌∙◌, List, append_assoc, false,
}
use dlms_access_point.Ap.Script.{MeterReading}
use dlms_access_point.Ap.Readings.{print_reading, print_rest, print_readings}

abbrev quote : ℕ
quote = b'"'

-- What stands behind a literal, if the text begins with it.
strip : Text → Text → Option Text
strip [] t = some t
strip (c ∷ p) [] = none
strip (c ∷ p) (d ∷ t) = let rest = strip p t in if c == d then rest else none

-- What stands before the first quote, and behind it.
until_quote : Text → Text × Text
until_quote [] = ([], [])
until_quote (c ∷ t) = let (a, b) = until_quote t in if c == quote then ([], t) else (c ∷ a, b)

strip-append : (p t : Text) → strip p (p ++ t) ≡ some t
unfolding strip
strip-append [] t = refl
strip-append (c ∷ p) t = ground (arith, strip-append p t)

until_quote-append : (a t : Text) → All (λ c. c ≢ quote) a → until_quote (a ++ (quote ∷ t)) ≡ (a, t)
unfolding until_quote
until_quote-append [] t h = ground arith
until_quote-append (c ∷ a) t h = ground (arith, until_quote-append a t h.1)

-- One reading, and what follows it.
read_reading : Text → Option (MeterReading × Text)
unfolding strip until_quote
read_reading t = elim (strip (codes "{\"meter\":\"") t) [
  | none ↦ none
  | some t' ↦
      let (addr, t'') = until_quote t' in
      elim (strip (codes ",\"data\":\"") t'') [
        | none ↦ none
        | some t3 ↦
            let (text, t4) = until_quote t3 in
            elim (strip (codes "}") t4) [
              | none ↦ none
              | some t5 ↦ some (record { meter_addr = addr; meter_data = text }, t5)
            ]
      ]
]

-- The texts that the format can carry.
abbrev IsPlain : MeterReading → Type 0
IsPlain r = All (λ c. c ≢ quote) r.meter_addr × All (λ c. c ≢ quote) r.meter_data

spelled : Text → Text → Text → Text
spelled addr text t =
    codes "{\"meter\":\""
    ++ (addr ++ (quote ∷ (codes ",\"data\":\"" ++ (text ++ (quote ∷ (codes "}" ++ t))))))

print_reading-spelled :
    (r : MeterReading) (t : Text) → print_reading r ++ t ≡ spelled r.meter_addr r.meter_data t
unfolding print_reading spelled
print_reading-spelled r t = simp append_assoc

read_reading-spelled :
    (addr text t : Text)
    → All (λ c. c ≢ quote) addr
    → All (λ c. c ≢ quote) text
    → read_reading (spelled addr text t) ≡ some (record { meter_addr = addr; meter_data = text }, t)
unfolding read_reading spelled
read_reading-spelled addr text t ha ht =
    let first =
      until_quote-append addr (codes ",\"data\":\"" ++ (text ++ (quote ∷ (codes "}" ++ t)))) ha in
    let second = until_quote-append text (codes "}" ++ t) ht in
    rw (first, read_reading, second, first, second)

read_reading-print_reading :
    (r : MeterReading) (t : Text) → IsPlain r → read_reading (print_reading r ++ t) ≡ some (r, t)
read_reading-print_reading r t (ha, ht) =
    rw (print_reading-spelled r t) (read_reading-spelled r.meter_addr r.meter_data t ha ht)

-- The readings behind a comma and a line feed each, up to the closing brackets.
read_rest : ℕ → Text → Option (List MeterReading)
read_rest zero t = none
read_rest (suc fuel) t = elim (strip (codes ",\n") t) [
  | none ↦ if text_eq t (codes "\n]}") then some [] else none
  | some t' ↦ elim (read_reading t') [
    | none ↦ none
    | some (r, t'') ↦ elim (read_rest fuel t'') [ none ↦ none | some rs ↦ some (r ∷ rs) ]
  ]
]

read_items : ℕ → Text → Option (List MeterReading)
unfolding read_rest
read_items fuel t = if text_eq t (codes "\n]}") then some [] else elim (read_reading t) [
  | none ↦ none
  | some (r, t') ↦ elim (read_rest fuel t') [ none ↦ none | some rs ↦ some (r ∷ rs) ]
]

-- A reader of the printed form, which stops after so many readings.
pub read_readings : ℕ → Text → Option (List MeterReading)
unfolding read_items
read_readings fuel t = elim (strip (codes "{\"meterdata\":[\n") t) [
  | none ↦ none
  | some t' ↦ read_items fuel t'
]

tail_of : List MeterReading → Text
tail_of [] = codes "\n]}"
tail_of (r ∷ rs) = codes ",\n" ++ (print_reading r ++ tail_of rs)

print_rest-tail_of :
    (rs : List MeterReading) (out : Text) → print_rest rs out ++ codes "\n]}" ≡ out ++ tail_of rs
unfolding print_rest tail_of
print_rest-tail_of [] out = refl
print_rest-tail_of (r ∷ rs) out =
    print_rest-tail_of rs (out ++ (codes ",\n" ++ print_reading r)) ∙ simp append_assoc

read_rest-tail_of :
    (fuel : ℕ) (rs : List MeterReading)
    → length rs < fuel
    → All IsPlain rs
    → read_rest fuel (tail_of rs) ≡ some rs
unfolding read_rest tail_of strip
read_rest-tail_of zero rs h hs = absurd (omega arith)
read_rest-tail_of (suc fuel) [] h hs = refl
read_rest-tail_of (suc fuel) (r ∷ rs) h hs = rw (
  read_reading-print_reading r (tail_of rs) hs.0,
  read_rest,
  read_rest-tail_of fuel rs (omega arith) hs.1,
)

print_reading-ne_end :
    (r : MeterReading) (t : Text) → text_eq (print_reading r ++ t) (codes "\n]}") ≡ false
unfolding print_reading
print_reading-ne_end r t = refl

read_items-tail_of :
    (fuel : ℕ) (r : MeterReading) (rs : List MeterReading)
    → length rs < fuel
    → All IsPlain (r ∷ rs)
    → read_items fuel (print_reading r ++ tail_of rs) ≡ some (r ∷ rs)
unfolding read_items
read_items-tail_of fuel r rs h hs = rw (
  print_reading-ne_end r (tail_of rs),
  read_reading-print_reading r (tail_of rs) hs.0,
  read_items,
  read_rest-tail_of fuel rs h hs.1,
)

-- What the access point prints for its readings spells exactly those readings, in their order: they
-- are read back from it, if no meter name and no data holds a quotation mark.
pub read_readings-print_readings :
    (rs : List MeterReading)
    → All IsPlain rs
    → read_readings (suc (length rs)) (print_readings rs) ≡ some rs
unfolding read_readings print_readings strip read_reading
read_readings-print_readings [] hs = refl
read_readings-print_readings (r ∷ rs) hs =
    rw (print_rest-tail_of rs (codes "{\"meterdata\":[\n" ++ print_reading r))
      (read_items-tail_of (suc (suc (length rs))) r rs (omega arith) hs)
