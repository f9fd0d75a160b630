-- ===== src/Hes/Server.antt =====
-- src/HESsim.cpp, classes tcp_connection and RegistrationServer and the thread `regs`: the meters'
-- connections, over the accepts that the event loop reports. A `receive` that does not end is the end
-- of a history.
pub mod Laws
mod Tests
use dlms_access_point.Prelude.{
  Text, codes, Bool, true, false, Option, none, some, List, [], ◌∷◌, ◌++◌, if◌then◌else◌,
}
use dlms_access_point.Hes.Registration.{insert}

-- `accepting` is the acceptor's outstanding operation, and `running` that of `io_service::run`.
pub record Server : Type 0 where
  pub meters : List Text
  pub running : Bool
  pub accepting : Bool
  pub output : Text

-- The call of `receive`, which throws also at the end of the stream.
pub data Received : Type 0 where
  bytes : Received
  threw : Text → Received

-- The end of an accept: an error; a peer that has left, so that `remote_endpoint` throws what it says;
-- or a peer's address, and how the `receive` behind it ends.
pub data Accept : Type 0 where
  failed : Accept
  left : Text → Accept
  connected : Text → Received → Accept

do_accept : Server → Server
do_accept s = record s { accepting = true }

-- The constructor, with the acceptor bound; `meters` is a global.
pub new : Server
unfolding do_accept
new = do_accept (record {
  meters = [];
  running = true;
  accepting = false;
  output = codes "Listening on port 4059\n";
})

-- An exception leaves `run`, and the handler of `regs` ends the thread.
leave : Server → Text → Server
leave s what = record s { running = false; output = s.output ++ (what ++ codes "\n") }

-- `tcp_connection::start` up to the call of `receive`.
register : Server → Text → Server
register s remote = record s {
  meters = insert remote s.meters;
  output = s.output ++ (codes "Registered " ++ (remote ++ codes "\n"));
}

-- The handler of the accept, whose operation is over.
on_accept : Server → Accept → Server
unfolding do_accept leave register
on_accept s failed = do_accept (record s { accepting = false })
on_accept s (left what) = leave (record s { accepting = false }) what
on_accept s (connected remote bytes) = do_accept (register (record s { accepting = false }) remote)
on_accept s (connected remote (threw what)) =
    leave (register (record s { accepting = false }) remote) what

-- `none` where the event loop cannot report that, since it has ended.
pub step : Server → Accept → Option Server
unfolding on_accept
step s a = elim s.running [
  | true ↦ if s.accepting then some (on_accept s a) else none
  | false ↦ none
]

pub run : Server → List Accept → Option Server
unfolding step
run s [] = some s
run s (a ∷ rest) = elim (step s a) [ none ↦ none | some s' ↦ run s' rest ]
