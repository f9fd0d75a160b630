-- ===== src/Meter/Simulator.antt =====
-- src/Metersim.cpp: the main loop of a meter, which registers with the head-end system and then
-- serves. What asio answers in a round is an argument, and Run returns where the event loop has
-- nothing more to do.
pub mod Laws
mod Tests
use dlms_access_point.Prelude.{if◌then◌else◌, Bool, true, false, ◌&&◌, List, [], ◌∷◌, ◌++◌}

pub data Line : Type 0 where
  registered_with meter_listening failed_to_listen what : Line

-- Whether a round could connect to the head-end system, send it the request, and open its own
-- socket.
pub record Round : Type 0 where
  pub connects : Bool
  pub writes : Bool
  pub opens : Bool

-- `exited` says that the process has called `exit`.
pub record Meter : Type 0 where
  pub reg : Bool
  pub exited : Bool
  pub output : List Line

pub new : Meter
new = record { reg = false; exited = false; output = [] }

-- ServerApp::Register: an exception is printed and answers false.
register : Meter → Round → Meter
register m r =
    if r.connects && r.writes
    then record m { reg = true; output = m.output }
    else record m { reg = false; output = m.output ++ what ∷ [] }

-- ServerApp::Server_Handler, which Run calls first.
server_handler : Meter → Round → Meter
server_handler m r =
    if r.opens
    then record m { output = m.output ++ meter_listening ∷ [] }
    else record m { exited = true; output = m.output ++ meter_listening ∷ failed_to_listen ∷ [] }

-- The body of the loop of main.
pub step : Meter → Round → Meter
unfolding register server_handler
step m r =
    if m.reg
    then server_handler m r
    else let m' = register m r in record m' { output = m'.output ++ registered_with ∷ [] }

pub run : Meter → List Round → Meter
unfolding step
run m [] = m
run m (r ∷ rs) = let later = run (step m r) rs in if m.exited then m else later
