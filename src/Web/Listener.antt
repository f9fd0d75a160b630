-- ===== src/Web/Listener.antt =====
-- Class listener of src/websocket/server.cpp and of src/websocket/taskrunner.cpp. What the calls of
-- asio report is an argument: true for no error.
pub mod Laws
mod Tests
use dlms_access_point.Prelude.{ℕ, ◌+◌, if◌then◌else◌, Bool, true, false, List, [], ◌∷◌, ◌++◌}

pub data Failure : Type 0 where
  open_failed set_option_failed bind_failed listen_failed accept_failed : Failure

-- `accepting` says that an async_accept is outstanding, and `sessions` counts the sessions started.
pub record Listener : Type 0 where
  pub is_open : Bool
  pub is_listening : Bool
  pub accepting : Bool
  pub sessions : ℕ
  pub output : List Failure

abbrev closed : Listener
closed = record {
  is_open = false;
  is_listening = false;
  accepting = false;
  sessions = 0;
  output = [];
}

fail : Listener → Failure → Listener
fail l what = record l { output = l.output ++ what ∷ [] }

-- The constructor: each call is made if those before it succeeded.
pub construct : Bool → Bool → Bool → Bool → Listener
unfolding fail
construct opens sets binds listens =
    let open_one = record closed { is_open = true } in
    if opens
    then if sets
      then if binds
        then if listens
          then record open_one { is_listening = true }
          else fail open_one listen_failed
        else fail open_one bind_failed
      else fail open_one set_option_failed
    else fail closed open_failed

do_accept : Listener → Listener
do_accept l = record l { accepting = true }

pub run : Listener → Listener
unfolding do_accept
run l = if l.is_open then do_accept l else l

-- The end of an accept: a session is started, or the error is printed.
pub on_accept : Listener → Bool → Listener
unfolding fail do_accept
on_accept l succeeded =
    if succeeded
    then do_accept (record l { sessions = l.sessions + 1 })
    else do_accept (fail l accept_failed)

-- The ends of the outstanding accepts, in their order.
pub accept_all : Listener → List Bool → Listener
unfolding on_accept
accept_all l [] = l
accept_all l (b ∷ bs) =
    let later = accept_all (on_accept l b) bs in if l.accepting then later else l
