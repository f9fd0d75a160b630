-- ===== src/Ap/Server.antt =====
-- src/APsim.cpp, classes tcp_connection and RegistrationServer and the thread `regs`: the head-end
-- system's connections, over the ends of the asynchronous operations that the event loop reports.
pub mod Laws
pub mod Sample
mod Tests
use dlms_access_point.Prelude.{
  is_elem, ℕ, ◌==◌, if◌then◌else◌, Text, codes, Bool, true, false, ◌+◌, Option, none, some, List,
  [], ◌∷◌, ◌++◌,
}
use dlms_access_point.Ap.Config.{Config, handle_read}

-- `accepting` is the acceptor's outstanding operation, and `reading` the connections whose read is
-- outstanding; a connection is numbered as it is accepted. `running` is that of `io_service::run`.
pub record Server : Type 0 where
  pub cfg : Config
  pub running : Bool
  pub accepting : Bool
  pub accepted : ℕ
  pub reading : List ℕ
  pub output : Text

-- The end of an accept: an error; a connection; or a connection whose peer has left, so that
-- `remote_endpoint` throws what it says.
pub data Accept : Type 0 where
  failed connected : Accept
  left : Text → Accept

pub data Event : Type 0 where
  accepts : Accept → Event
  -- The connection, whether there was an error, the buffer and the bytes transferred.
  reads : ℕ → Bool → Text → ℕ → Event

do_accept : Server → Server
do_accept s = record s { accepting = true }

-- The constructor, with the acceptor bound.
pub new : Config → Server
unfolding do_accept
new cfg = do_accept (record {
  cfg = cfg;
  running = true;
  accepting = false;
  accepted = 0;
  reading = [];
  output = codes "Listening on port 4059\n";
})

-- `tcp_connection::start`.
start : Server → Server
start s = record s { accepted = s.accepted + 1; reading = s.reading ++ s.accepted ∷ [] }

-- An exception leaves `run`, and the handler of `regs` ends the thread.
leave : Server → Text → Server
leave s what = record s { running = false; output = s.output ++ (what ++ codes "\n") }

-- The handler of the accept, whose operation is over.
on_accept : Server → Accept → Server
unfolding start leave do_accept
on_accept s failed = do_accept (record s { accepting = false })
on_accept s connected = do_accept (start (record s { accepting = false }))
on_accept s (left what) = leave (record s { accepting = false }) what

remove : ℕ → List ℕ → List ℕ
remove n [] = []
remove n (x ∷ xs) = let rest = remove n xs in if n == x then rest else x ∷ rest

on_read : Server → ℕ → Bool → Text → ℕ → Server
unfolding remove
on_read s connection error buffer bytes_transferred =
    let note = if error then codes "Got an error in 'handle_read()' on line 531\n" else [] in
    record s {
      cfg = handle_read s.cfg error buffer bytes_transferred;
      reading = remove connection s.reading;
      output = s.output ++ note;
    }

-- `none` where the event loop cannot report that, since the operation is not outstanding.
pub step : Server → Event → Option Server
unfolding on_accept on_read
step s (accepts a) = elim s.running [
  | true ↦ if s.accepting then some (on_accept s a) else none
  | false ↦ none
]
step s (reads connection error buffer bytes_transferred) = elim s.running [
  | true ↦
      if is_elem connection s.reading
      then some (on_read s connection error buffer bytes_transferred)
      else none
  | false ↦ none
]

pub run : Server → List Event → Option Server
unfolding step
run s [] = some s
run s (e ∷ es) = elim (step s e) [ none ↦ none | some s' ↦ run s' es ]
