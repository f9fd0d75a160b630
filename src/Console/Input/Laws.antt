-- ===== src/Console/Input/Laws.antt =====
-- Which of the typed lines a question takes, and what it prints.
use dlms_access_point.Prelude.{
  Text, codes, ◌≡◌, ◌⊎◌, refl, inl, inr, ◌<◌, ◌≤◌, ℤ, pos_part, neg_part, some, List, [], ◌∷◌, ◌++◌,
  arith, All, ap, ◌∙◌, append_assoc,
}
use dlms_access_point.Console.Number.{Converted, converted, invalid_argument, out_of_range}
use dlms_access_point.Console.Number.Laws.{stoi_bounds}
use dlms_access_point.Console.Input.{Console, answer, ask, get_numeric_input}

-- The complaint about a line, if there is one.
abbrev complaint : Converted → List Text
complaint (converted z) = []
complaint invalid_argument = codes "Input must be numeric!\n\n" ∷ []
complaint out_of_range = codes "Input is too large!\n\n" ∷ []

abbrev Rejects : ℤ → Text → Type 0
Rejects default line =
    (answer default line ≡ invalid_argument) ⊎ (answer default line ≡ out_of_range)

-- What is printed over lines that are rejected.
pub dialogue : Text → ℤ → List Text → List Text
dialogue prompt default [] = []
dialogue prompt default (line ∷ lines) =
    (prompt ++ codes ": ") ∷ (complaint (answer default line) ++ dialogue prompt default lines)

-- What is printed over one rejected line and the rest is printed in one piece.
regroup {ℓ} :
    {A : Type ℓ} (output : List A) (p m : A) (said asked : List A)
    → ((output ++ p ∷ []) ++ m ∷ []) ++ (said ++ asked) ≡ output ++ ((p ∷ (m ∷ said)) ++ asked)
regroup output p m said asked = simp append_assoc

ask-rejected :
    (prompt : Text) (default z : ℤ) (bad : List Text) (good : Text) (rest output : List Text)
    → All (Rejects default) bad
    → answer default good ≡ converted z
    → ask prompt default (bad ++ good ∷ rest) output
      ≡ some (
        z,
        record {
          input = rest;
          output = output ++ (dialogue prompt default bad ++ (prompt ++ codes ": ") ∷ []);
        },
      )
unfolding ask dialogue
ask-rejected prompt default z [] good rest output b g = rw (g, ask) refl
ask-rejected prompt default z (line ∷ lines) good rest output (inl e, b) g =
    let p = prompt ++ codes ": " in
    let m = codes "Input must be numeric!\n\n" in
    let said = dialogue prompt default lines in
    rw (e, ask)
      (ask-rejected prompt default z lines good rest ((output ++ p ∷ []) ++ m ∷ []) b g
        ∙ ap (λ o. some (z, record { input = rest; output = o }))
            (regroup output p m said (p ∷ [])))
ask-rejected prompt default z (line ∷ lines) good rest output (inr e, b) g =
    let p = prompt ++ codes ": " in
    let m = codes "Input is too large!\n\n" in
    let said = dialogue prompt default lines in
    rw (e, ask)
      (ask-rejected prompt default z lines good rest ((output ++ p ∷ []) ++ m ∷ []) b g
        ∙ ap (λ o. some (z, record { input = rest; output = o }))
            (regroup output p m said (p ∷ [])))

-- A question for a number takes the first line that is empty or holds a number in range, and answers
-- the default or that number. It takes the lines before with one complaint each, and leaves the
-- lines behind.
pub get_numeric_input-dialogue :
    (prompt : Text) (default z : ℤ) (bad : List Text) (good : Text) (rest output : List Text)
    → All (Rejects default) bad
    → answer default good ≡ converted z
    → get_numeric_input prompt default (record { input = bad ++ good ∷ rest; output = output })
      ≡ some (
        z,
        record {
          input = rest;
          output = output ++ (dialogue prompt default bad ++ (prompt ++ codes ": ") ∷ []);
        },
      )
unfolding get_numeric_input
get_numeric_input-dialogue = ask-rejected

answer_bounds :
    (default z : ℤ) (line : Text)
    → answer default line ≡ converted z
    → (z ≡ default) ⊎ ((pos_part z < 2_147_483_648) × (neg_part z ≤ 2_147_483_648))
unfolding answer
answer_bounds default z [] h = ground arith
answer_bounds default z (c ∷ s) h = inr (stoi_bounds (c ∷ s) z h)

ask_bounds :
    (prompt : Text) (default z : ℤ) (input output : List Text) (c' : Console)
    → ask prompt default input output ≡ some (z, c')
    → (z ≡ default) ⊎ ((pos_part z < 2_147_483_648) × (neg_part z ≤ 2_147_483_648))
unfolding ask
ask_bounds prompt default z [] output c' h = ground arith
ask_bounds prompt default z (line ∷ input) output c' h = ground (
  arith,
  answer_bounds default z line,
  ask_bounds prompt default z input
      (output ++ (prompt ++ codes ": ") ∷ [] ++ codes "Input must be numeric!\n\n" ∷ []) c',
  ask_bounds prompt default z input
      (output ++ (prompt ++ codes ": ") ∷ [] ++ codes "Input is too large!\n\n" ∷ []) c',
)

-- Whatever is typed, what a question for a number answers is its default or in the range of an `int`.
get_numeric_input_bounds :
    (prompt : Text) (default z : ℤ) (c c' : Console)
    → get_numeric_input prompt default c ≡ some (z, c')
    → (z ≡ default) ⊎ ((pos_part z < 2_147_483_648) × (neg_part z ≤ 2_147_483_648))
unfolding get_numeric_input
get_numeric_input_bounds prompt default z c c' h = ask_bounds prompt default z c.input c.output c' h
