-- ===== src/Web/Program/Echo.antt =====
-- A client of the head-end system's server while the server has other sessions.
use dlms_access_point.Prelude.{ℕ, get_elem?, Text, ◌≡◌, refl, ap, ◌∙◌, some, List, ◌∷◌, []}
use dlms_access_point.Hes.Config.{HesConfig, PropertyTree}
use dlms_access_point.Web.Session.{fine, start, sent}
use dlms_access_point.Web.Session.Laws.{conversation}
use dlms_access_point.Web.Server.{answer}
use dlms_access_point.Web.Server.Laws.{run-echo}
use dlms_access_point.Web.Program.{Event, Program}
use dlms_access_point.Web.Program.Apart.{completions, sent_to, run-Apart}

module _ (pt : PropertyTree) (buffers_to_string : Text → pt.Document) where
  -- A session that the server has just started hears each of its messages back, as it came and in
  -- order, whatever connections the server accepts and whatever its other sessions do in between, if
  -- what ends for that session is a handshake and a conversation over a connection that does not
  -- fail.
  pub sent_to-echo :
      (p : Program HesConfig) (i : ℕ) (cfg : HesConfig) (messages : List Text) (es : List Event)
      → get_elem? p.sessions i ≡ some (start HesConfig cfg)
      → completions i es
        ≡ record { ec = fine; bytes = [] }
          ∷ conversation HesConfig (answer pt buffers_to_string) messages
      → sent_to HesConfig (answer pt buffers_to_string) i p es ≡ messages
  unfolding answer
  sent_to-echo p i cfg messages es begun own =
      let first = start HesConfig cfg in
      let apart =
        run-Apart HesConfig (answer pt buffers_to_string) p i first es (λ a b t. refl)
          (first, begun, (refl, refl, refl)) in
      apart.1
      ∙ ap (sent HesConfig (answer pt buffers_to_string) first) own
      ∙ (run-echo pt buffers_to_string cfg messages).0
