-- ===== src/Web/TaskRunner/Main.antt =====
-- Function main of src/websocket/taskrunner.cpp.
pub mod Laws
mod Tests
use dlms_access_point.Prelude.{
  ℕ, Text, ◌%◌, ◌-◌, if◌then◌else◌, ◌==◌, ℤ, pos, negsuc, Option, none, some, [], ◌∷◌, ◌++◌, true,
  false,
}
use dlms_access_point.Console.Number.{
  Converted, converted, invalid_argument, out_of_range, skip_spaces, is_digit, read_digits, fit,
}
use dlms_access_point.Web.TaskRunner.{fetched, fetch_net_stats}

-- `std::stoi` with its base of 10: the sign and the digits behind white space.
decimal_magnitude : Text → Option ℕ
decimal_magnitude [] = none
decimal_magnitude (c ∷ s) = if is_digit 10 c then some (read_digits 10 0 (c ∷ s)) else none

signed : Text → Converted
unfolding decimal_magnitude
signed [] = invalid_argument
signed (c ∷ s) =
    if c == b'-'
    then fit true (decimal_magnitude s)
    else if c == b'+'
    then fit false (decimal_magnitude s)
    else fit false (decimal_magnitude (c ∷ s))

pub decimal_stoi : Text → Converted
unfolding signed
decimal_stoi str = signed (skip_spaces str)

-- An `unsigned short` of an `int`.
unsigned_short : ℤ → ℕ
unsigned_short (pos n) = n % 65536
unsigned_short (negsuc n) = (65535 - n % 65536) % 65536

-- `argv[1]` that is not there is a null pointer, which std::string is made of.
pub data Ran : Type 0 where
  usage uncaught null_argument : Ran
  serves : ℕ → Text → Ran

ran : Converted → Text → Ran
unfolding unsigned_short fetched
ran (converted z) pipe = serves (unsigned_short z) (fetched (fetch_net_stats pipe) ++ b'\n' ∷ [])
ran invalid_argument pipe = usage
ran out_of_range pipe = uncaught

-- The first argument, and what the command writes when the program starts: the port that is
-- listened on, and what is printed before.
pub main : Option Text → Text → Ran
unfolding ran decimal_stoi
main none pipe = null_argument
main (some portnum) pipe = ran (decimal_stoi portnum) pipe
