-- ===== src/Console/Number/Laws.antt =====
-- Numbers that are printed and read back, and the range of those that are read.
use dlms_access_point.Prelude.{
  ℕ, Text, zero, suc, ◌+◌, ◌*◌, ◌<◌, ◌≡◌, refl, false, some, [], ◌∷◌, ◌++◌, arith, ltb, Bool-cases,
  ℤ, pos, pos_part, neg_part, ◌-◌, ◌/◌, ◌%◌, ◌≤◌, ap, ◌∙◌, inl, inr, none, sym, Bool, true, Option,
}
use dlms_access_point.Console.Number.{
  read_digits, digit_value, to_digits, converted, is_space, after_zero, fit, stoi, to_string,
  skip_spaces, is_digit, magnitude, after_spaces,
}

-- Neither a digit nor a letter comes first.
unfoldable pub Ends : Text → Type 0
Ends [] = Unit
Ends (c ∷ s) = digit_value c ≡ none

digit_value-decimal : (d : ℕ) → d < 10 → digit_value (b'0' + d) ≡ some d
unfolding digit_value
digit_value-decimal d h = ground arith

read_digits-cons :
    (v d : ℕ) (s : Text)
    → d < 10
    → read_digits 10 v ((b'0' + d) ∷ s) ≡ read_digits 10 (v * 10 + d) s
unfolding read_digits
read_digits-cons v d s h = ground (arith, digit_value-decimal d h)

read_digits-stop : (v : ℕ) (s : Text) → Ends s → read_digits 10 v s ≡ v
unfolding read_digits Ends
read_digits-stop v [] h = refl
read_digits-stop v (c ∷ s) h = ground arith

pub read_digits-to_digits :
    (fuel n : ℕ) (acc rest : Text)
    → n < fuel
    → read_digits 10 0 (to_digits fuel n acc ++ rest) ≡ read_digits 10 n (acc ++ rest)
unfolding to_digits
read_digits-to_digits zero n acc rest h = absurd (omega arith)
read_digits-to_digits (suc fuel) n acc rest h = elim (Bool-cases (ltb n 10)) [
  | inl e ↦
      let one : 0 * 10 + n % 10 ≡ n = ground arith in
      rw (e, to_digits) (read_digits-cons 0 (n % 10) (acc ++ rest) (omega arith))
      ∙ ap (λ m. read_digits 10 m (acc ++ rest)) one
  | inr e ↦
      let all : n / 10 * 10 + n % 10 ≡ n = omega arith in
      rw (e, to_digits)
        (read_digits-to_digits fuel (n / 10) ((b'0' + n % 10) ∷ acc) rest (ground arith))
      ∙ read_digits-cons (n / 10) (n % 10) (acc ++ rest) (omega arith)
      ∙ ap (λ m. read_digits 10 m (acc ++ rest)) all
]

-- A number that is not 0 is printed with a first digit that is not 0.
pub to_digits-head :
    (fuel n : ℕ) (acc : Text)
    → n < fuel
    → 0 < n
    → (d : ℕ) × (t : Text) × (to_digits fuel n acc ≡ (b'1' + d) ∷ t) × (d < 9)
unfolding to_digits
to_digits-head zero n acc h p = absurd (omega arith)
to_digits-head (suc fuel) n acc h p = elim (Bool-cases (ltb n 10)) [
  | inl e ↦ (n % 10 - 1, acc, rw (e, to_digits) (ap (λ c. c ∷ acc) (ground arith)), omega arith)
  | inr e ↦
      let (d, t, shape, below) =
        to_digits-head fuel (n / 10) ((b'0' + n % 10) ∷ acc) (ground arith) (ground arith) in
      (d, t, rw (e, to_digits) shape, below)
]

after_zero-Ends : (rest : Text) → Ends rest → after_zero rest ≡ 0
unfolding after_zero Ends read_digits digit_value
after_zero-Ends [] h = refl
after_zero-Ends (x ∷ []) h = ground arith
after_zero-Ends (x ∷ k ∷ s) h = ground arith

pub skip_spaces-digit : (d : ℕ) (t : Text) → d < 10 → skip_spaces ((b'0' + d) ∷ t) ≡ (b'0' + d) ∷ t
unfolding skip_spaces is_space
skip_spaces-digit d t h = ground arith

after_spaces-digit :
    (d : ℕ) (t : Text)
    → d < 10
    → after_spaces ((b'0' + d) ∷ t) ≡ fit false (magnitude ((b'0' + d) ∷ t))
unfolding after_spaces
after_spaces-digit d t h = ground arith

magnitude-digit :
    (d : ℕ) (t : Text)
    → d < 9
    → magnitude ((b'1' + d) ∷ t) ≡ some (read_digits 10 0 ((b'1' + d) ∷ t))
unfolding magnitude is_digit digit_value
magnitude-digit d t h = ground arith

stoi-nonzero :
    (d n : ℕ) (t : Text)
    → d < 9
    → read_digits 10 0 ((b'1' + d) ∷ t) ≡ n
    → stoi ((b'1' + d) ∷ t) ≡ fit false (some n)
unfolding stoi
stoi-nonzero d n t h e =
    let shift : b'1' + d ≡ b'0' + (d + 1) = omega arith in
    ap (λ c. after_spaces (skip_spaces (c ∷ t))) shift
    ∙ ap after_spaces (skip_spaces-digit (d + 1) t (omega arith))
    ∙ after_spaces-digit (d + 1) t (omega arith)
    ∙ ap (λ c. fit false (magnitude (c ∷ t))) (sym shift)
    ∙ ap (fit false) (magnitude-digit d t h)
    ∙ ap (λ m. fit false (some m)) e

pub fit-some : (n : ℕ) → n < 2_147_483_648 → fit false (some n) ≡ converted (pos n)
unfolding fit
fit-some n h = ground arith

fit_bounds :
    (negative : Bool) (m : Option ℕ) (z : ℤ)
    → fit negative m ≡ converted z
    → (pos_part z < 2_147_483_648) × (neg_part z ≤ 2_147_483_648)
unfolding fit
fit_bounds negative none z h = ground arith
fit_bounds false (some m) z h = ground arith
fit_bounds true (some zero) z h = ground arith
fit_bounds true (some (suc k)) z h = ground arith

-- A token is printed so that the number is read back, whatever follows that does not begin with a
-- digit or a letter, if it is in the range of an `int`.
pub stoi-to_string :
    (n : ℕ) (rest : Text)
    → n < 2_147_483_648
    → Ends rest
    → stoi (to_string n ++ rest) ≡ converted (pos n)
unfolding to_string stoi fit is_space
stoi-to_string zero rest h k = ap (λ m. fit false (some m)) (after_zero-Ends rest k)
stoi-to_string (suc m) rest h k =
    let (d, t, shape, below) =
      to_digits-head (suc (suc m)) (suc m) [] (omega arith) (omega arith) in
    let reads =
      read_digits-to_digits (suc (suc m)) (suc m) [] rest (omega arith)
      ∙ read_digits-stop (suc m) rest k in
    ap (λ u. stoi (u ++ rest)) shape
    ∙ stoi-nonzero d (suc m) (t ++ rest) below
        (ap (λ u. read_digits 10 0 (u ++ rest)) (sym shape) ∙ reads)
    ∙ fit-some (suc m) h

after_spaces_bounds :
    (s : Text) (z : ℤ)
    → after_spaces s ≡ converted z
    → (pos_part z < 2_147_483_648) × (neg_part z ≤ 2_147_483_648)
unfolding after_spaces
after_spaces_bounds [] z h = ground arith
after_spaces_bounds (c ∷ s) z h = ground (
  arith,
  fit_bounds true (magnitude s) z,
  fit_bounds false (magnitude s) z,
  fit_bounds false (magnitude (c ∷ s)) z,
)

-- What is read from a line, in whatever base, is in the range of an `int`.
pub stoi_bounds :
    (s : Text) (z : ℤ)
    → stoi s ≡ converted z
    → (pos_part z < 2_147_483_648) × (neg_part z ≤ 2_147_483_648)
unfolding stoi
stoi_bounds s z h = after_spaces_bounds (skip_spaces s) z h
