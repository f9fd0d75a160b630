-- ===== src/Core/Registry/Laws.antt =====
-- Which sockets are alive after a history of calls.
use dlms_access_point.Prelude.{
  ℕ, ◌==◌, if◌then◌else◌, ◌≡◌, refl, Bool, false, ◌||◌, List, [], ◌∷◌, arith, ◌++◌,
}
use dlms_access_point.Core.Registry.{
  Registry, create_socket, release_socket, remove_if, run_tasks, process, new, remove_socket,
}

unfoldable pub holds : List ℕ → ℕ → Bool
holds [] socket = false
holds (x ∷ xs) socket = x == socket || holds xs socket

holds-remove_if :
    (socket j : ℕ) (xs : List ℕ)
    → holds (remove_if socket xs) j ≡ (if socket == j then false else holds xs j)
unfolding remove_if holds
holds-remove_if socket j [] = ground arith
holds-remove_if socket j (x ∷ xs) = ground (arith, holds-remove_if socket j xs)

holds-run_tasks :
    (tasks : List ℕ) (r : Registry) (j : ℕ)
    → holds (run_tasks tasks r).sockets j ≡ (if holds tasks j then false else holds r.sockets j)
unfolding run_tasks holds
holds-run_tasks [] r j = refl
holds-run_tasks (socket ∷ tasks) r j =
    ground
      (arith, holds-run_tasks tasks (remove_socket r socket) j, holds-remove_if socket j r.sockets)

holds-append : (xs ys : List ℕ) (j : ℕ) → holds (xs ++ ys) j ≡ (holds xs j || holds ys j)
unfolding holds
holds-append [] ys j = refl
holds-append (x ∷ xs) ys j = ground (arith, holds-append xs ys j)

-- A released socket stays in the list until the event loop runs: what is posted then is removed, the
-- released socket with it, no other socket is, and nothing stays posted.
pub process-release_socket :
    (r : Registry) (socket j : ℕ)
    → (holds (release_socket r socket).sockets j ≡ holds r.sockets j)
      × (holds (process (release_socket r socket)).sockets j
          ≡ (if holds r.posted j || (socket == j) then false else holds r.sockets j))
      × ((process (release_socket r socket)).posted ≡ [])
unfolding process release_socket holds
process-release_socket r socket j = (
  refl,
  ground (
    arith,
    holds-run_tasks (r.posted ++ socket ∷ []) (release_socket r socket) j,
    holds-append r.posted (socket ∷ []) j,
  ),
  refl,
)

run_tasks-process_idle :
    (sockets posted : List ℕ)
    → posted ≡ []
    → process (record { sockets = sockets; posted = posted })
      ≡ record { sockets = sockets; posted = posted }
unfolding process run_tasks
run_tasks-process_idle sockets posted e = rw e refl

-- Where nothing is posted, the event loop changes nothing.
pub process_idle : (r : Registry) → r.posted ≡ [] → process r ≡ r
process_idle r e = run_tasks-process_idle r.sockets r.posted e

pub data Event : Type 0 where
  creates releases : ℕ → Event
  processes : Event

unfoldable pub step : Registry → Event → Registry
unfolding create_socket release_socket process
step r (creates address) = (create_socket r address).0
step r (releases socket) = release_socket r socket
step r processes = process r

-- An allocation gives an address that no socket in the list has.
unfoldable pub Allocates : Registry → List Event → Type 0
unfolding step
Allocates r [] = Unit
Allocates r (creates address ∷ es) =
    (holds r.sockets address ≡ false) × Allocates (step r (creates address)) es
Allocates r (releases socket ∷ es) = Allocates (step r (releases socket)) es
Allocates r (processes ∷ es) = Allocates (step r processes) es

unfoldable pub run : Registry → List Event → Registry
unfolding step
run r [] = r
run r (e ∷ es) = run (step r e) es

-- No address stands in the list twice.
abbrev pub Distinct : List ℕ → Type 0
Distinct [] = Unit
Distinct (x ∷ xs) = (holds xs x ≡ false) × Distinct xs

remove_if-Distinct : (socket : ℕ) (xs : List ℕ) → Distinct xs → Distinct (remove_if socket xs)
unfolding remove_if
remove_if-Distinct socket [] d = tt
remove_if-Distinct socket (x ∷ xs) d =
    ground (arith, remove_if-Distinct socket xs d.1, holds-remove_if socket x xs)

run_tasks-Distinct :
    (tasks : List ℕ) (r : Registry) → Distinct r.sockets → Distinct (run_tasks tasks r).sockets
unfolding run_tasks
run_tasks-Distinct [] r d = d
run_tasks-Distinct (socket ∷ tasks) r d =
    run_tasks-Distinct tasks (remove_socket r socket) (remove_if-Distinct socket r.sockets d)

run-Distinct :
    (r : Registry) (es : List Event)
    → Allocates r es
    → Distinct r.sockets
    → Distinct (run r es).sockets
unfolding run Allocates
run-Distinct r [] a d = d
run-Distinct r (creates address ∷ es) a d = run-Distinct (step r (creates address)) es a.1 (a.0, d)
run-Distinct r (releases socket ∷ es) a d = run-Distinct (step r (releases socket)) es a d
run-Distinct r (processes ∷ es) a d =
    run-Distinct (step r processes) es a (run_tasks-Distinct r.posted r d)

-- After any history of creations, releases and runs of the event loop, no socket stands in the list
-- twice, if each allocation gives an address that is not in use.
pub run-new-Distinct : (es : List Event) → Allocates new es → Distinct (run new es).sockets
unfolding new
run-new-Distinct es a = run-Distinct new es a tt
