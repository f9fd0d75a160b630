-- ===== src/Console/Number.antt =====
-- What GetNumericInput of src/Linux.cpp does with a line, `std::stoi(RetVal, nullptr, 0)`, and
-- `std::to_string` of a token.
pub mod Laws
mod Tests
use dlms_access_point.Prelude.{
  ℕ, leb, ltb, ◌==◌, if◌then◌else◌, Text, zero, suc, ◌+◌, ◌-◌, ◌*◌, ◌/◌, ◌%◌, ℤ, pos, negsuc, Bool,
  true, false, ◌&&◌, ◌||◌, Option, none, some, [], ◌∷◌,
}

-- The value, or one of the two exceptions.
pub data Converted : Type 0 where
  converted : ℤ → Converted
  invalid_argument out_of_range : Converted

-- In the C locale.
unfoldable pub is_space : ℕ → Bool
is_space c = c == b' ' || (leb 9 c && leb c 13)

unfoldable pub skip_spaces : Text → Text
skip_spaces [] = []
skip_spaces (c ∷ s) = let rest = skip_spaces s in if is_space c then rest else c ∷ s

-- `0` to `9`, and letters of either case from 10 on.
unfoldable pub digit_value : ℕ → Option ℕ
digit_value c =
    if leb b'0' c && leb c b'9'
    then some (c - b'0')
    else if leb b'a' c && leb c b'z'
    then some (c - b'a' + 10)
    else if leb b'A' c && leb c b'Z'
    then some (c - b'A' + 10)
    else none

unfoldable pub is_digit : ℕ → ℕ → Bool
unfolding digit_value
is_digit base c = elim (digit_value c) [ none ↦ false | some d ↦ ltb d base ]

-- The digits from here on, behind those that make up `v`; what follows them is not read.
unfoldable pub read_digits : ℕ → ℕ → Text → ℕ
unfolding digit_value
read_digits base v [] = v
read_digits base v (c ∷ s) = elim (digit_value c) [
  | none ↦ v
  | some d ↦ let more = read_digits base (v * base + d) s in if ltb d base then more else v
]

-- Behind a leading zero: hexadecimal behind `0x` and a digit, and else octal, with the zero for the
-- first digit.
after_zero : Text → ℕ
unfolding is_digit
after_zero [] = 0
after_zero (x ∷ []) = read_digits 8 0 (x ∷ [])
after_zero (x ∷ h ∷ s) =
    if (x == b'x' || x == b'X') && is_digit 16 h
    then read_digits 16 0 (h ∷ s)
    else read_digits 8 0 (x ∷ (h ∷ s))

-- `none` where there is no digit.
magnitude : Text → Option ℕ
unfolding after_zero is_digit
magnitude [] = none
magnitude (c ∷ s) =
    if c == b'0'
    then some (after_zero s)
    else if is_digit 10 c
    then some (read_digits 10 0 (c ∷ s))
    else none

-- An `int` has 32 bits.
unfoldable pub fit : Bool → Option ℕ → Converted
fit negative none = invalid_argument
fit false (some m) = if ltb m 2_147_483_648 then converted (pos m) else out_of_range
fit true (some zero) = converted (pos 0)
fit true (some (suc k)) = if ltb k 2_147_483_648 then converted (negsuc k) else out_of_range

after_spaces : Text → Converted
unfolding fit magnitude
after_spaces [] = invalid_argument
after_spaces (c ∷ s) =
    if c == b'-'
    then fit true (magnitude s)
    else if c == b'+'
    then fit false (magnitude s)
    else fit false (magnitude (c ∷ s))

unfoldable pub stoi : Text → Converted
unfolding after_spaces skip_spaces
stoi str = after_spaces (skip_spaces str)

-- The digits of `n` in front of `acc`, on fuel.
unfoldable pub to_digits : ℕ → ℕ → Text → Text
to_digits zero n acc = acc
to_digits (suc fuel) n acc =
    let digits = (b'0' + n % 10) ∷ acc in
    let more = to_digits fuel (n / 10) digits in if ltb n 10 then digits else more

unfoldable pub to_string : ℕ → Text
unfolding to_digits
to_string n = to_digits (suc n) n []
