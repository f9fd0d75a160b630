-- ===== src/Console/Input/Tests.antt =====
-- A question that is answered at the third try.
use dlms_access_point.Prelude.{codes, ◌≡◌, refl, inl, inr, pos, some, [], ◌∷◌, ◌++◌}
use dlms_access_point.Console.Number.{stoi, is_space, read_digits}
use dlms_access_point.Console.Input.{answer, get_numeric_input, get_string_input}
use dlms_access_point.Console.Input.Laws.{dialogue, get_numeric_input-dialogue}

empty_line :
    get_string_input (codes "Password") (codes "p") (record { input = [] ∷ []; output = [] })
    ≡ some (codes "p", record { input = []; output = codes "Password: " ∷ [] })
unfolding get_string_input
empty_line = refl

get_numeric_input-dialogue_example :
    get_numeric_input (codes "Class ID") (pos 1) (record {
      input = (codes "one" ∷ codes "99999999999" ∷ []) ++ codes "8" ∷ codes "2" ∷ [];
      output = [];
    })
    ≡ some (
      pos 8,
      record {
        input = codes "2" ∷ [];
        output =
            []
            ++ (dialogue (codes "Class ID") (pos 1) (codes "one" ∷ codes "99999999999" ∷ [])
                ++ (codes "Class ID" ++ codes ": ") ∷ []);
      },
    )
unfolding answer stoi is_space read_digits
get_numeric_input-dialogue_example =
    get_numeric_input-dialogue (codes "Class ID") (pos 1) (pos 8)
      (codes "one" ∷ codes "99999999999" ∷ []) (codes "8") (codes "2" ∷ []) []
      (inl refl, (inr refl, tt)) refl
