-- ===== src/Ap/Server/Sample.antt =====
-- A server that has accepted one connection, has read from it, and has accepted another.
use dlms_access_point.Prelude.{ℕ, codes, ◌≡◌, refl, some, true, false, List, [], ◌∷◌}
use dlms_access_point.Ap.Config.{Config, initial, interpret, handle_read}
use dlms_access_point.Ap.Server.{
  Server, connected, accepts, reads, new, run, step, on_accept, on_read, start, do_accept, remove,
}

abbrev pub serving : Config → ℕ → List ℕ → Server
serving c n open_reads = record {
  cfg = c;
  running = true;
  accepting = true;
  accepted = n;
  reading = open_reads;
  output = codes "Listening on port 4059\n";
}

abbrev pub one_meter : Config
one_meter = interpret initial (codes "small,a")

pub new-serving : new initial ≡ serving initial 0 []
unfolding new do_accept
new-serving = refl

pub run-connects :
    (c : Config) → run (serving c 0 []) (accepts connected ∷ []) ≡ some (serving c 1 (0 ∷ []))
unfolding run step on_accept start do_accept
run-connects c = refl

pub run-reads :
    run (serving initial 1 (0 ∷ [])) (reads 0 false (codes "small,a") 7 ∷ [])
    ≡ some (serving one_meter 1 [])
unfolding run step on_read remove handle_read
run-reads = refl

pub run-connects_again :
    run (serving one_meter 1 []) (accepts connected ∷ []) ≡ some (serving one_meter 2 (1 ∷ []))
unfolding run step on_accept start do_accept
run-connects_again = refl
