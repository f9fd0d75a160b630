-- ===== src/Console/Input.antt =====
-- Class AppBase of src/Linux.cpp: the console. The lines that will be typed are a list; where it
-- ends, `asio::read_until` throws.
pub mod Laws
mod Tests
use dlms_access_point.Prelude.{Text, codes, ℤ, Option, none, some, List, [], ◌∷◌, ◌++◌}
use dlms_access_point.Console.Number.{Converted, converted, invalid_argument, out_of_range, stoi}

pub record Console : Type 0 where
  pub input : List Text
  pub output : List Text

unfoldable pub print_line : Text → Console → Console
print_line line c = record c { output = c.output ++ line ∷ [] }

unfoldable pub take_line : List Text → List Text → Option (Text × Console)
take_line [] output = none
take_line (line ∷ input) output = some (line, record { input = input; output = output })

unfoldable pub get_line : Console → Option (Text × Console)
unfolding take_line
get_line c = take_line c.input c.output

-- What the body of the loop makes of a line.
unfoldable pub answer : ℤ → Text → Converted
answer default [] = converted default
answer default (c ∷ s) = stoi (c ∷ s)

-- The loop of GetNumericInput, over the lines that will be typed.
unfoldable pub ask : Text → ℤ → List Text → List Text → Option (ℤ × Console)
ask prompt default [] output = none
ask prompt default (line ∷ input) output =
    let asked = output ++ (prompt ++ codes ": ") ∷ [] in
    elim (answer default line) [
      | converted z ↦ some (z, record { input = input; output = asked })
      | invalid_argument ↦
          ask prompt default input (asked ++ codes "Input must be numeric!\n\n" ∷ [])
      | out_of_range ↦ ask prompt default input (asked ++ codes "Input is too large!\n\n" ∷ [])
    ]

unfoldable pub get_numeric_input : Text → ℤ → Console → Option (ℤ × Console)
unfolding ask
get_numeric_input prompt default c = ask prompt default c.input c.output

unfoldable pub or_default : Text → Text → Text
or_default default [] = default
or_default default (c ∷ s) = c ∷ s

unfoldable pub get_string_input : Text → Text → Console → Option (Text × Console)
unfolding get_line print_line or_default
get_string_input prompt default c = elim (get_line (print_line (prompt ++ codes ": ") c)) [
  | none ↦ none
  | some (line, c') ↦ some (or_default default line, c')
]
