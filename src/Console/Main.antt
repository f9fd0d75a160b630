-- ===== src/Console/Main.antt =====
-- Function main of src/Linux.cpp: the options, the first line, and the application that runs.
mod Tests
use dlms_access_point.Prelude.{
  ℕ, ◌==◌, if◌then◌else◌, Text, codes, Bool, true, false, List, [], ◌∷◌, ◌++◌,
}

-- The loop over the option characters that `getopt` gives, until it has no more.
is_server : Bool → List ℕ → Bool
is_server server [] = server
is_server server (opt ∷ opts) = if opt == b'S' then is_server true opts else is_server server opts

pub data App : Type 0 where
  server_app client_app : App

-- What is printed, and the application that is constructed and runs.
main : List ℕ → Text × App
unfolding is_server
main opts =
    let server = is_server false opts in
    (
      codes "EPRI DLMS/COSEM "
          ++ ((if server then codes "Server" else codes "Client") ++ codes "Test Harness\n"),
      if server then server_app else client_app,
    )
