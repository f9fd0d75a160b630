-- ===== src/Hes/Server/Tests.antt =====
-- A failed accept, a meter that sends, and a meter that closes without a message.
use dlms_access_point.Prelude.{codes, ◌≡◌, refl, some, none, not, false, List, [], ◌∷◌}
use dlms_access_point.Hes.Registration.{register_all, insert, text_lt}
use dlms_access_point.Hes.Server.{
  Server, bytes, threw, Accept, failed, connected, new, run, step, on_accept, do_accept, leave,
  register,
}
use dlms_access_point.Hes.Server.Laws.{remotes, any_leaves, run-register_all}

abbrev history : List Accept
history =
    failed
    ∷ connected (codes "::2") bytes
    ∷ connected (codes "::1") (threw (codes "receive: End of file"))
    ∷ []

abbrev ended : Server
ended = record {
  meters = codes "::1" ∷ (codes "::2" ∷ []);
  running = false;
  accepting = false;
  output = codes "Listening on port 4059\nRegistered ::2\nRegistered ::1\nreceive: End of file\n";
}

run-history : run new history ≡ some ended
unfolding run new step on_accept do_accept leave register insert text_lt
run-history = refl

run-register_all_example :
    (ended.meters ≡ register_all [] (remotes history))
    × (ended.running ≡ not (any_leaves history))
    × (ended.accepting ≡ not (any_leaves history))
run-register_all_example = run-register_all history ended run-history

-- Nobody can register after that.
run-ended : run ended (connected (codes "::3") bytes ∷ []) ≡ none
unfolding run step
run-ended = refl
