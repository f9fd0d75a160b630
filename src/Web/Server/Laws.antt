-- ===== src/Web/Server/Laws.antt =====
-- What a client of the head-end system hears and sets.
use dlms_access_point.Prelude.{Text, ◌≡◌, refl, ap, ◌∙◌, some, List, [], ◌∷◌}
use dlms_access_point.Hes.Config.{HesConfig, PropertyTree, load_from_string}
use dlms_access_point.Web.Session.{
  fine, other_failure, Completion, writes, read_failed, start, step, run, sent,
}
use dlms_access_point.Web.Session.Laws.{conversation, answers, shared_after, idle, run-conversation}
use dlms_access_point.Web.Server.{answer}

module _ (pt : PropertyTree) (buffers_to_string : Text → pt.Document) where
  -- The documents, loaded one after the other.
  pub load_all : HesConfig → List Text → HesConfig
  load_all cfg [] = cfg
  load_all cfg (m ∷ ms) = load_all (load_from_string pt cfg (buffers_to_string m)) ms

  answers-echo :
      (cfg : HesConfig) (messages : List Text)
      → (answers HesConfig (answer pt buffers_to_string) cfg messages ≡ messages)
        × (shared_after HesConfig (answer pt buffers_to_string) cfg messages
            ≡ load_all cfg messages)
  unfolding answer answers shared_after load_all
  answers-echo cfg [] = (refl, refl)
  answers-echo cfg (m ∷ ms) =
      let (echo, settings) = answers-echo (load_from_string pt cfg (buffers_to_string m)) ms in
      (ap (◌∷◌ m) echo, settings)

  -- Over a connection that does not fail, and with no other session at the same time, the server
  -- sends every message back as it came, in order, and the settings are afterwards those of loading
  -- the messages one after the other.
  pub run-echo :
      (cfg : HesConfig) (messages : List Text)
      → let events =
          record { ec = fine; bytes = [] }
          ∷ conversation HesConfig (answer pt buffers_to_string) messages in
        let first = start HesConfig cfg in
        (sent HesConfig (answer pt buffers_to_string) first events ≡ messages)
        × ((run HesConfig (answer pt buffers_to_string) first events).shared
            ≡ load_all cfg messages)
  run-echo cfg messages =
      let (talk, end) = run-conversation HesConfig (answer pt buffers_to_string) cfg messages in
      let (echo, settings) = answers-echo cfg messages in
      (talk ∙ echo, ap (λ s. s.shared) end ∙ settings)

  -- A read that fails otherwise than by a close is reported, and what had come of the message is
  -- still loaded and sent back, as if it were a whole message.
  step_failed_read :
      (cfg : HesConfig) (c : Completion)
      → c.ec ≡ other_failure
      → step HesConfig
          (answer pt buffers_to_string)
          (idle HesConfig (answer pt buffers_to_string) cfg [])
          c
        ≡ record {
          shared = load_from_string pt cfg (buffers_to_string c.bytes);
          buffer = c.bytes;
          operation = some (writes c.bytes);
          output = read_failed ∷ [];
        }
  unfolding step answer
  step_failed_read cfg c h = rw h refl
