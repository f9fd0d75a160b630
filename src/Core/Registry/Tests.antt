-- ===== src/Core/Registry/Tests.antt =====
-- A history of a list of sockets.
use dlms_access_point.Prelude.{◌≡◌, refl, List, [], ◌∷◌, ◌==◌, if◌then◌else◌, false, ◌||◌}
use dlms_access_point.Core.Registry.{new, release_socket, process}
use dlms_access_point.Core.Registry.Laws.{
  Event, creates, releases, processes, run, holds, process-release_socket, step,
}

-- An address is given out again once its socket is removed.
abbrev history : List Event
history = creates 16 ∷ creates 32 ∷ releases 16 ∷ processes ∷ creates 16 ∷ []

run-history : (run new history).sockets ≡ 16 ∷ 32 ∷ []
unfolding run new step
run-history = refl

process-release_socket_example :
    let r = run new history in
    (holds (release_socket r 32).sockets 32 ≡ holds r.sockets 32)
    × (holds (process (release_socket r 32)).sockets 32
        ≡ (if holds r.posted 32 || (32 == 32) then false else holds r.sockets 32))
    × ((process (release_socket r 32)).posted ≡ [])
process-release_socket_example = process-release_socket (run new history) 32 32
