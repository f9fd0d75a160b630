-- ===== src/Web/TaskRunner/Tests.antt =====
-- A report of one line.
use dlms_access_point.Prelude.{List, map, Text, codes, ◌≡◌, refl, some, [], ◌∷◌, arith}
use dlms_access_point.Web.TaskRunner.{answer, split_line, getline, copy_lines, fetch_net_stats}
use dlms_access_point.Web.Session.{fine, start, sent}
use dlms_access_point.Web.Session.Laws.{conversation}
use dlms_access_point.Web.TaskRunner.Conversation.{netstat, output_of, replies, sent-replies}

no_newline_at_end : fetch_net_stats (codes "a\nb") ≡ some (codes "a\nb\n")
unfolding fetch_net_stats copy_lines getline split_line
no_newline_at_end = refl

sent-replies_example :
    sent (List Text) answer (start (List Text) (map output_of ((codes "up" ∷ []) ∷ []))) (
      record { ec = fine; bytes = [] }
      ∷ conversation (List Text) answer (codes "help" ∷ netstat ∷ []))
    ≡ replies ((codes "up" ∷ []) ∷ []) (codes "help" ∷ netstat ∷ [])
sent-replies_example =
    sent-replies ((codes "up" ∷ []) ∷ []) (codes "help" ∷ netstat ∷ [])
      (((cc, (omega arith, (omega arith, tt))), tt), tt)
