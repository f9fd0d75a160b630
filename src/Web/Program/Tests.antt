-- ===== src/Web/Program/Tests.antt =====
-- Two clients of the head-end system's server.
use dlms_access_point.Prelude.{Text, codes, ◌≡◌, refl, true, none, some, List, [], ◌∷◌}
use dlms_access_point.Hes.Config.{HesConfig, PropertyTree, new}
use dlms_access_point.Web.Session.{Completion, fine, closed, start}
use dlms_access_point.Web.Listener.{construct, run}
use dlms_access_point.Web.Session.Laws.{conversation}
use dlms_access_point.Web.Server.{answer}
use dlms_access_point.Web.Program.{Event, Program, accepted, completed}
use dlms_access_point.Web.Program.Apart.{completions, sent_to}
use dlms_access_point.Web.Program.Echo.{sent_to-echo}

-- Trees with the text of one setting, which is the document.
abbrev one_text : PropertyTree
one_text = record {
  Tree = Text;
  Document = Text;
  empty = [];
  get_string = λ p t. some t;
  get_bool = λ p t. none;
  put_string = λ p v t. v;
  put_bool = λ p b t. t;
  read_json = λ json. some json;
  write_json = λ t. t;
}

abbrev done : Completion
done = record { ec = fine; bytes = [] }

abbrev read : Text → Completion
read t = record { ec = fine; bytes = t }

-- Both clients have connected.
abbrev two_sessions : Program HesConfig
two_sessions = record {
  listener = run (construct true true true true);
  shared = new;
  sessions = start HesConfig new ∷ start HesConfig new ∷ [];
}

-- The first client's message and the second's overlap, a third connects, and the first one closes.
abbrev both_talk : List Event
both_talk =
    completed 0 done
    ∷ completed 1 done
    ∷ completed 1 (read (codes "large"))
    ∷ completed 0 (read (codes "small"))
    ∷ accepted true
    ∷ completed 1 done
    ∷ completed 0 (record { ec = closed; bytes = [] })
    ∷ []

sent_to-echo_example :
    sent_to HesConfig (answer one_text (λ t. t)) 1 two_sessions both_talk ≡ codes "large" ∷ []
unfolding completions conversation
sent_to-echo_example =
    sent_to-echo one_text (λ t. t) two_sessions 1 new (codes "large" ∷ []) both_talk refl refl
