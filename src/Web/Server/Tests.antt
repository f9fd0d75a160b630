-- ===== src/Web/Server/Tests.antt =====
-- Conversations with the head-end system's server.
use dlms_access_point.Prelude.{ℕ, Text, codes, ◌≡◌, some, none, List, [], ◌∷◌, ◌++◌, ◌+◌}
use dlms_access_point.Hes.Config.{HesConfig, PropertyTree, new}
use dlms_access_point.Web.Session.{fine, start, run, sent}
use dlms_access_point.Web.Session.Laws.{conversation}
use dlms_access_point.Web.Server.{answer}
use dlms_access_point.Web.Server.Laws.{load_all, run-echo}

-- Trees with the text of one setting, which is the document.
abbrev one_text : PropertyTree
one_text = record {
  Tree = Text;
  Document = Text;
  empty = [];
  get_string = λ p t. some t;
  get_bool = λ p t. none;
  put_string = λ p v t. v;
  put_bool = λ p b t. t;
  read_json = λ json. some json;
  write_json = λ t. t;
}

abbrev two_messages : List Text
two_messages = codes "large" ∷ codes "medium" ∷ []

run-echo_example :
    let events =
      record { ec = fine; bytes = [] }
      ∷ conversation HesConfig (answer one_text (λ t. t)) two_messages in
    let first = start HesConfig new in
    (sent HesConfig (answer one_text (λ t. t)) first events ≡ two_messages)
    × ((run HesConfig (answer one_text (λ t. t)) first events).shared
        ≡ load_all one_text (λ t. t) new two_messages)
run-echo_example = run-echo one_text (λ t. t) new two_messages

-- Sessions that share a count of the messages.
abbrev counting : ℕ → Text → ℕ × Text
counting n t = (n + 1, t ++ b'!' ∷ [])
