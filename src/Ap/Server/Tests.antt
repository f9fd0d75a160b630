-- ===== src/Ap/Server/Tests.antt =====
-- A history with a failed accept, two connections and a peer that has left.
use dlms_access_point.Prelude.{
  length, codes, true, false, not, ◌+◌, ◌≤◌, ◌≡◌, refl, some, none, List, [], ◌∷◌,
}
use dlms_access_point.Ap.Config.{Config, initial, interpret, handle_read}
use dlms_access_point.Ap.Main.{deliver}
use dlms_access_point.Ap.Server.{
  Server, failed, connected, left, Event, accepts, reads, new, run, step, on_accept, on_read, start,
  leave, do_accept, remove,
}
use dlms_access_point.Ap.Server.Laws.{texts, connections, any_leaves, run-deliver}

abbrev history : List Event
history =
    accepts failed
    ∷ accepts connected
    ∷ accepts connected
    ∷ reads 1 true [] 0
    ∷ reads 0 false (codes "medium,m1") 9
    ∷ []

abbrev listening : Config → Server
listening c = record {
  cfg = c;
  running = true;
  accepting = true;
  accepted = 2;
  reading = [];
  output = codes "Listening on port 4059\nGot an error in 'handle_read()' on line 531\n";
}

run-history : run (new initial) history ≡ some (listening (interpret initial (codes "medium,m1")))
unfolding run new step on_accept on_read start do_accept remove handle_read
run-history = refl

run-deliver_example :
    let s = listening (interpret initial (codes "medium,m1")) in
    (s.cfg ≡ deliver initial (texts history))
    × (length (texts history) + length s.reading ≤ connections history)
    × (s.running ≡ not (any_leaves history))
    × (s.accepting ≡ not (any_leaves history))
run-deliver_example =
    run-deliver initial history (listening (interpret initial (codes "medium,m1"))) run-history

-- A thread that has ended accepts no more.
run-left : run (new initial) (accepts (left (codes "gone")) ∷ accepts connected ∷ []) ≡ none
unfolding run new step on_accept leave do_accept
run-left = refl
