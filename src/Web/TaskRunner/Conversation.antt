-- ===== src/Web/TaskRunner/Conversation.antt =====
-- What a client of src/websocket/taskrunner.cpp hears.
use dlms_access_point.Prelude.{
  Text, codes, text_eq, ◌≡◌, refl, ◌∙◌, Bool-cases, inl, inr, if◌then◌else◌, List, [], ◌∷◌, ◌++◌,
  map, All, ap,
}
use dlms_access_point.Web.Session.{fine, start, sent}
use dlms_access_point.Web.Session.Laws.{conversation, answers, run-conversation}
use dlms_access_point.Web.TaskRunner.{copy_lines, getline, answer, fetch_net_stats, fetched}
use dlms_access_point.Web.TaskRunner.Laws.{print_lines, IsLine, fetch_net_stats-print_lines}

-- What the command writes for a report: its lines, and an empty line.
pub output_of : List Text → Text
output_of report = print_lines report ++ b'\n' ∷ []

abbrev pub netstat : Text
netstat = codes "{netstat}"

-- The replies to commands, with the reports of the runs of the command in their order.
pub replies : List (List Text) → List Text → List Text
replies reports [] = []
replies [] (m ∷ ms) =
    if text_eq m netstat
    then (b'\n' ∷ []) ∷ replies [] ms
    else (m ++ codes "{error:unknown_command}\n") ∷ replies [] ms
replies (report ∷ reports) (m ∷ ms) =
    if text_eq m netstat
    then (print_lines report ++ b'\n' ∷ []) ∷ replies reports ms
    else (m ++ codes "{error:unknown_command}\n") ∷ replies (report ∷ reports) ms

answers-replies :
    (reports : List (List Text)) (messages : List Text)
    → All (λ report. All IsLine report) reports
    → answers (List Text) answer (map output_of reports) messages ≡ replies reports messages
unfolding answers answer fetched fetch_net_stats copy_lines getline replies output_of
answers-replies reports [] hs = refl
answers-replies [] (m ∷ ms) hs = elim (Bool-cases (text_eq m netstat)) [
  | inl e ↦ rw e (ap (◌∷◌ (b'\n' ∷ [])) (answers-replies [] ms hs))
  | inr e ↦ rw e (ap (◌∷◌ (m ++ codes "{error:unknown_command}\n")) (answers-replies [] ms hs))
]
answers-replies (report ∷ reports) (m ∷ ms) hs = elim (Bool-cases (text_eq m netstat)) [
  | inl e ↦
      rw (e, fetch_net_stats-print_lines report [] hs.0)
        (ap (◌∷◌ (print_lines report ++ b'\n' ∷ [])) (answers-replies reports ms hs.1))
  | inr e ↦
      rw e (
        ap (◌∷◌ (m ++ codes "{error:unknown_command}\n"))
          (answers-replies (report ∷ reports) ms hs))
]

-- Over a connection that does not fail, where each run of the command writes lines that are not
-- empty and then an empty one, the program answers `{netstat}` with the lines of the next report
-- and a newline (a newline alone when the command writes nothing), and any other text with that text
-- and the error behind it, one reply for each message and in order.
pub sent-replies :
    (reports : List (List Text)) (messages : List Text)
    → All (λ report. All IsLine report) reports
    → sent
        (List Text)
        answer
        (start (List Text) (map output_of reports))
        (record { ec = fine; bytes = [] } ∷ conversation (List Text) answer messages)
      ≡ replies reports messages
sent-replies reports messages hs =
    (run-conversation (List Text) answer (map output_of reports) messages).0
    ∙ answers-replies reports messages hs
