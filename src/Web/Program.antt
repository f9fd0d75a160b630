-- ===== src/Web/Program.antt =====
-- The function `server` of src/websocket/server.cpp and of src/websocket/taskrunner.cpp: the listener
-- with all its sessions on one io_context, which runs one handler at a time.
pub mod Echo
pub mod Apart
mod Tests
use dlms_access_point.Prelude.{
  ℕ, if◌then◌else◌, get_elem?, set, Text, Bool, Option, none, some, List, [], ◌∷◌, ◌++◌,
}
use dlms_access_point.Web.Listener as Listening
use dlms_access_point.Web.Listener.{Listener, construct}
use dlms_access_point.Web.Session.{Completion, Session, start, step}

-- The end of the listener's accept, without an error or with one; and the end of the outstanding
-- operation of a session. Sessions are numbered as they are made.
pub data Event : Type 0 where
  accepted : Bool → Event
  completed : ℕ → Completion → Event

module _ (Shared : Type 0) where
  -- The state that the sessions share, a reference in each, is kept here.
  pub record Program : Type 0 where
    pub listener : Listener
    pub shared : Shared
    pub sessions : List (Session Shared)

  -- The listener that `server` makes and runs, with what the calls of asio report.
  pub server : Bool → Bool → Bool → Bool → Shared → Program
  server opens sets binds listens shared = record {
    listener = Listening.run (construct opens sets binds listens);
    shared = shared;
    sessions = [];
  }

  on_accepted : Program → Bool → Program
  on_accepted p succeeded = record p {
    listener = Listening.on_accept p.listener succeeded;
    sessions = if succeeded then p.sessions ++ start Shared p.shared ∷ [] else p.sessions;
  }

  module _ (answer : Shared → Text → Shared × Text) where
    -- `none` is a session that is not there: nothing happens.
    on_completed : Program → ℕ → Option (Session Shared) → Completion → Program
    on_completed p i none c = p
    on_completed p i (some s) c =
        let s' = step Shared answer (record s { shared = p.shared }) c in
        record p { shared = s'.shared; sessions = set p.sessions i s' }

    unfoldable pub handle : Program → Event → Program
    unfolding on_accepted on_completed
    handle p (accepted succeeded) = if p.listener.accepting then on_accepted p succeeded else p
    handle p (completed i c) = on_completed p i (get_elem? p.sessions i) c

    -- `io_context::run`.
    unfoldable pub run_all : Program → List Event → Program
    unfolding handle
    run_all p [] = p
    run_all p (e ∷ es) = run_all (handle p e) es
