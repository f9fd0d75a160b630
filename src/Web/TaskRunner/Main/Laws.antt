-- ===== src/Web/TaskRunner/Main/Laws.antt =====
-- The port of src/websocket/taskrunner.cpp.
use dlms_access_point.Prelude.{
  ℕ, ◌<◌, ◌%◌, ◌+◌, Text, zero, suc, ◌≡◌, refl, sym, ap, ◌∙◌, pos, some, [], ◌∷◌, ◌++◌, arith,
  append-nil, false,
}
use dlms_access_point.Console.Number.{
  to_string, read_digits, is_digit, digit_value, fit, converted, to_digits,
}
use dlms_access_point.Console.Number.Laws.{
  read_digits-to_digits, to_digits-head, skip_spaces-digit, fit-some,
}
use dlms_access_point.Web.TaskRunner.{fetch_net_stats}
use dlms_access_point.Web.TaskRunner.Laws.{fetch_net_stats_total}
use dlms_access_point.Web.TaskRunner.Main.{
  decimal_magnitude, signed, decimal_stoi, unsigned_short, ran, main, serves,
}

decimal_magnitude-digit :
    (d : ℕ) (t : Text)
    → d < 10
    → decimal_magnitude ((b'0' + d) ∷ t) ≡ some (read_digits 10 0 ((b'0' + d) ∷ t))
unfolding decimal_magnitude is_digit digit_value
decimal_magnitude-digit d t h = ground arith

signed-digit :
    (d : ℕ) (t : Text)
    → d < 10
    → signed ((b'0' + d) ∷ t) ≡ fit false (decimal_magnitude ((b'0' + d) ∷ t))
unfolding signed
signed-digit d t h = ground arith

decimal_stoi-digit :
    (d n : ℕ) (t : Text)
    → d < 10
    → read_digits 10 0 ((b'0' + d) ∷ t) ≡ n
    → decimal_stoi ((b'0' + d) ∷ t) ≡ fit false (some n)
unfolding decimal_stoi
decimal_stoi-digit d n t h e =
    ap signed (skip_spaces-digit d t h)
    ∙ signed-digit d t h
    ∙ ap (fit false) (decimal_magnitude-digit d t h)
    ∙ ap (λ m. fit false (some m)) e

decimal_stoi-to_string :
    (n : ℕ) → n < 2_147_483_648 → decimal_stoi (to_string n) ≡ converted (pos n)
unfolding to_string
decimal_stoi-to_string zero h =
    decimal_stoi-digit 0 0 [] (omega arith) (unfold read_digits in refl) ∙ fit-some 0 h
decimal_stoi-to_string (suc m) h =
    let (d, t, shape, below) =
      to_digits-head (suc (suc m)) (suc m) [] (omega arith) (omega arith) in
    let shift : b'1' + d ≡ b'0' + (d + 1) = omega arith in
    let shaped = shape ∙ ap (λ c. c ∷ t) shift in
    let reads =
      ap (read_digits 10 0) (sym shaped ∙ sym (append-nil (to_digits (suc (suc m)) (suc m) [])))
      ∙ read_digits-to_digits (suc (suc m)) (suc m) [] [] (omega arith) in
    ap decimal_stoi shaped
    ∙ decimal_stoi-digit (d + 1) (suc m) t (omega arith) (reads ∙ (unfold read_digits in refl))
    ∙ fit-some (suc m) h

-- A program that is started with a port in decimal listens on that number modulo 65536, if it is
-- below 2 ^ 31, and prints a report and a newline before, whatever the command writes.
pub main-to_string :
    (n : ℕ) (pipe : Text)
    → n < 2_147_483_648
    → (report : Text) × (fetch_net_stats pipe ≡ some report)
      × (main (some (to_string n)) pipe ≡ serves (n % 65536) (report ++ b'\n' ∷ []))
unfolding main ran unsigned_short
main-to_string n pipe h =
    let (report, e) = fetch_net_stats_total pipe in
    (report, e, rw (decimal_stoi-to_string n h, e) refl)
