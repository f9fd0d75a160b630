-- ===== src/Web/TaskRunner/Laws.antt =====
-- What a report contains, and when the loop that collects it ends.
use dlms_access_point.Prelude.{
  ℕ, Text, zero, suc, length, ◌≡◌, ◌≢◌, ◌⊎◌, inl, inr, append-nil, ◌<◌, ◌≤◌, refl, some, List, [],
  ◌∷◌, ◌++◌, arith, All, append_assoc, sym, ap, ◌∙◌, length-append,
}
use dlms_access_point.Web.TaskRunner.{split_line, getline, copy_lines, fetch_net_stats}

length-split_line : (s : Text) → length (split_line s).1 ≤ length s
unfolding split_line
length-split_line [] = omega arith
length-split_line (c ∷ s) = ground (arith, length-split_line s)

length-split_line_cons : (c : ℕ) (s : Text) → length (split_line (c ∷ s)).1 ≤ length s
unfolding split_line
length-split_line_cons c s = ground (arith, length-split_line s)

List-cases {ℓ} : {A : Type ℓ} (xs : List A) → (xs ≡ []) ⊎ ((x : A) × (ys : List A) × (xs ≡ x ∷ ys))
List-cases [] = inl refl
List-cases (x ∷ xs) = inr (x, xs, refl)

copy_lines-end :
    (fuel : ℕ) (pipe ss rest : Text)
    → getline pipe ≡ some ([], rest)
    → copy_lines (suc fuel) pipe ss ≡ some ss
unfolding copy_lines
copy_lines-end fuel pipe ss rest e = rw (copy_lines, e) refl

copy_lines-line :
    (fuel : ℕ) (pipe ss : Text) (x : ℕ) (line rest : Text)
    → getline pipe ≡ some (x ∷ line, rest)
    → copy_lines (suc fuel) pipe ss ≡ copy_lines fuel rest (ss ++ ((x ∷ line) ++ b'\n' ∷ []))
unfolding copy_lines
copy_lines-line fuel pipe ss x line rest e = rw (copy_lines, e) refl

-- The loop ends within as many rounds as there are bytes.
copy_lines_total :
    (fuel : ℕ) (pipe ss : Text)
    → length pipe < fuel
    → (t : Text) × (copy_lines fuel pipe ss ≡ some t)
unfolding getline
copy_lines_total zero pipe ss h = absurd (omega arith)
copy_lines_total (suc fuel) [] ss h = unfold copy_lines in (ss, refl)
copy_lines_total (suc fuel) (c ∷ s) ss h = elim (List-cases (split_line (c ∷ s)).0) [
  | inl e ↦ (
    ss,
    copy_lines-end fuel (c ∷ s) ss (split_line (c ∷ s)).1
        (ap (λ line. some (line, (split_line (c ∷ s)).1)) e),
  )
  | inr (x, ys, e) ↦
      let rest = (split_line (c ∷ s)).1 in
      let (t, ends) =
        copy_lines_total fuel rest (ss ++ ((x ∷ ys) ++ b'\n' ∷ []))
          (omega (arith, length-split_line_cons c s)) in
      (t, copy_lines-line fuel (c ∷ s) ss x ys rest (ap (λ line. some (line, rest)) e) ∙ ends)
]

-- A line that is not empty and has no newline in it.
abbrev pub IsLine : Text → Type 0
IsLine line = (line ≢ []) × All (λ c. c ≢ b'\n') line

pub print_lines : List Text → Text
print_lines [] = []
print_lines (line ∷ lines) = line ++ b'\n' ∷ print_lines lines

split_line-append :
    (line rest : Text)
    → All (λ c. c ≢ b'\n') line
    → split_line (line ++ b'\n' ∷ rest) ≡ (line, rest)
unfolding split_line
split_line-append [] rest h = ground arith
split_line-append (c ∷ s) rest h = ground (arith, split_line-append s rest h.1, h.0)

copy_lines-print_lines :
    (fuel : ℕ) (lines : List Text) (rest ss : Text)
    → All IsLine lines
    → length (print_lines lines ++ b'\n' ∷ rest) < fuel
    → copy_lines fuel (print_lines lines ++ b'\n' ∷ rest) ss ≡ some (ss ++ print_lines lines)
unfolding getline print_lines
copy_lines-print_lines zero lines rest ss hs h = absurd (omega arith)
copy_lines-print_lines (suc fuel) [] rest ss hs h =
    copy_lines-end fuel (b'\n' ∷ rest) ss rest (ap some (split_line-append [] rest tt))
    ∙ ap some (sym (append-nil ss))
copy_lines-print_lines (suc fuel) ([] ∷ lines) rest ss hs h = absurd (hs.0.0 refl)
copy_lines-print_lines (suc fuel) ((c ∷ s) ∷ lines) rest ss hs h =
    let tail = print_lines lines ++ b'\n' ∷ rest in
    let shape = append_assoc (c ∷ s) (b'\n' ∷ print_lines lines) (b'\n' ∷ rest) in
    rw shape (
      copy_lines-line fuel (c ∷ s ++ b'\n' ∷ tail) ss c s tail
        (ap some (split_line-append (c ∷ s) tail hs.0.1))
      ∙ copy_lines-print_lines fuel lines rest (ss ++ ((c ∷ s) ++ b'\n' ∷ [])) hs.1 (
          omega (
            arith,
            length-append (c ∷ s ++ b'\n' ∷ print_lines lines) (b'\n' ∷ rest),
            length-append s (b'\n' ∷ print_lines lines),
            length-append (print_lines lines) (b'\n' ∷ rest),
          ))
      ∙ ap some (
          append_assoc ss ((c ∷ s) ++ b'\n' ∷ []) (print_lines lines)
          ∙ ap (λ xs. ss ++ xs) (append_assoc (c ∷ s) (b'\n' ∷ []) (print_lines lines))))

-- The report that is fetched is the command's output up to its first empty line: whatever follows
-- that is left out.
pub fetch_net_stats-print_lines :
    (lines : List Text) (rest : Text)
    → All IsLine lines
    → fetch_net_stats (print_lines lines ++ b'\n' ∷ rest) ≡ some (print_lines lines)
unfolding fetch_net_stats
fetch_net_stats-print_lines lines rest hs =
    copy_lines-print_lines (suc (length (print_lines lines ++ b'\n' ∷ rest))) lines rest [] hs
      (omega arith)

-- Whatever the command writes, the loop that collects it ends.
pub fetch_net_stats_total : (pipe : Text) → (t : Text) × (fetch_net_stats pipe ≡ some t)
unfolding fetch_net_stats
fetch_net_stats_total pipe = copy_lines_total (suc (length pipe)) pipe [] (omega arith)
