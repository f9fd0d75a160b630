-- ===== src/Hes/Server/Laws.antt =====
-- The registration server over histories of accepts.
use dlms_access_point.Prelude.{
  Option-cases, inl, inr, Text, Bool, true, false, not, ◌||◌, ◌&&◌, ◌≡◌, ap, ◌∙◌, some, List, [],
  ◌∷◌, ◌++◌, arith,
}
use dlms_access_point.Hes.Registration.{register_all}
use dlms_access_point.Hes.Main.Laws.{register_all-append}
use dlms_access_point.Hes.Server.{
  Server, bytes, threw, Accept, failed, left, connected, new, on_accept, step, run,
}

-- The address that an accept brings, and whether it ends the thread.
remote_of : Accept → List Text
remote_of failed = []
remote_of (left what) = []
remote_of (connected remote received) = remote ∷ []

pub remotes : List Accept → List Text
unfolding remote_of
remotes [] = []
remotes (a ∷ rest) = remote_of a ++ remotes rest

leaves : Accept → Bool
leaves failed = false
leaves (left what) = true
leaves (connected remote bytes) = false
leaves (connected remote (threw what)) = true

pub any_leaves : List Accept → Bool
unfolding leaves
any_leaves [] = false
any_leaves (a ∷ rest) = leaves a || any_leaves rest

Ran : Server → List Accept → Server → Type 0
Ran s rest s' =
    (s'.meters ≡ register_all s.meters (remotes rest))
    × (s'.running ≡ (s.running && not (any_leaves rest)))
    × (s'.accepting ≡ (s.accepting && not (any_leaves rest)))

Stepped : Server → Accept → Server → Type 0
Stepped s a s' =
    (s'.meters ≡ register_all s.meters (remote_of a))
    × (s'.running ≡ (s.running && not (leaves a)))
    × (s'.accepting ≡ (s.accepting && not (leaves a)))

step-Stepped : (s s' : Server) (a : Accept) → step s a ≡ some s' → Stepped s a s'
unfolding Stepped step on_accept remote_of leaves register_all
step-Stepped s s' failed h = ground arith
step-Stepped s s' (left what) h = ground arith
step-Stepped s s' (connected remote bytes) h = ground arith
step-Stepped s s' (connected remote (threw what)) h = ground arith

Stepped-Ran :
    (s s' s'' : Server) (a : Accept) (rest : List Accept)
    → Stepped s a s'
    → Ran s' rest s''
    → Ran s (a ∷ rest) s''
unfolding Stepped Ran remotes any_leaves
Stepped-Ran s s' s'' a rest (m, r, c) (m', r', c') = (
  m'
      ∙ ap (λ ms. register_all ms (remotes rest)) m
      ∙ register_all-append s.meters (remote_of a) (remotes rest),
  ground arith,
  ground arith,
)

run-Ran : (s s' : Server) (rest : List Accept) → run s rest ≡ some s' → Ran s rest s'
unfolding run Ran remotes any_leaves register_all
run-Ran s s' [] h = ground arith
run-Ran s s' (a ∷ rest) h = elim (Option-cases (step s a)) [
  | inl n ↦ absurd (ground arith)
  | inr (m, q) ↦ Stepped-Ran s m s' a rest (step-Stepped s m a q) (run-Ran m s' rest (ground arith))
]

-- Whatever accepts end, in whatever order the event loop can report them, since the head-end system
-- has started to listen: its set of meters is that of the addresses that have connected, those also
-- whose message could not be received; and the thread runs and listens exactly if no peer had left
-- before it was asked for its address and no `receive` has thrown.
pub run-register_all :
    (rest : List Accept) (s : Server)
    → run new rest ≡ some s
    → (s.meters ≡ register_all [] (remotes rest))
      × (s.running ≡ not (any_leaves rest))
      × (s.accepting ≡ not (any_leaves rest))
unfolding new Ran
run-register_all rest s h = run-Ran new s rest h
