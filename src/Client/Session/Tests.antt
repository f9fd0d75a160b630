-- ===== src/Client/Session/Tests.antt =====
-- Runs of a session.
use dlms_access_point.Prelude.{◌≡◌, refl, true, false, none, [], arith, ◌∷◌}
use dlms_access_point.Client.Sample.{sample_library, throwing_library, fresh}
use dlms_access_point.Client.Session.{
  Session, max_tries, is_linked, associated, open_session, socket_released, destruct, close, polled,
  after_poll,
}
use dlms_access_point.Client.Outcome.{thrown, returned, ◌>>=◌}
use dlms_access_point.Client.Session.Open.{waiting, open_session-waiting}

abbrev waiting_session : Session sample_library
waiting_session = record {
  engine = fresh;
  has_socket = true;
  get_token = none;
  set_token = none;
  action_token = none;
  output = [];
}

open_session-waiting_example :
    open_session sample_library 400 waiting_session
    ≡ waiting sample_library max_tries waiting_session
unfolding is_linked associated
open_session-waiting_example =
    open_session-waiting sample_library (λ s h. h) 400 waiting_session (omega arith)

-- With the association open, the meter's answer throws through the next poll.
abandoned :
    (s : Session throwing_library) → s.engine.is_open ≡ true → close throwing_library s ≡ thrown
unfolding close polled ◌>>=◌
abandoned s h = rw (h) refl

ended :
    (close sample_library waiting_session >>= λ r. destruct sample_library r.1)
    ≡ returned (record waiting_session {
      engine = record { polls = 2; is_open = false };
      has_socket = false;
      output = socket_released ∷ [];
    })
unfolding close destruct polled after_poll ◌>>=◌
ended = refl
