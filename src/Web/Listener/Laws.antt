-- ===== src/Web/Listener/Laws.antt =====
-- When a listener accepts.
use dlms_access_point.Prelude.{
  ℕ, ◌+◌, if◌then◌else◌, ◌≡◌, refl, ◌↔◌, Bool, true, false, ◌&&◌, List, [], ◌∷◌, arith,
}
use dlms_access_point.Web.Listener.{Listener, construct, run, on_accept, accept_all}

-- How many of the accepts succeed.
count_true : List Bool → ℕ
count_true [] = 0
count_true (b ∷ bs) = let n = count_true bs in if b then n + 1 else n

accept_all-accepting :
    (l : Listener) (bs : List Bool)
    → l.accepting ≡ true
    → ((accept_all l bs).accepting ≡ true)
      × ((accept_all l bs).sessions ≡ l.sessions + count_true bs)
unfolding accept_all on_accept count_true
accept_all-accepting l [] h = ground arith
accept_all-accepting l (true ∷ bs) h =
    ground (arith, accept_all-accepting (on_accept l true) bs refl)
accept_all-accepting l (false ∷ bs) h =
    ground (arith, accept_all-accepting (on_accept l false) bs refl)

accept_all-closed : (l : Listener) (bs : List Bool) → l.accepting ≡ false → accept_all l bs ≡ l
unfolding accept_all
accept_all-closed l [] h = refl
accept_all-closed l (b ∷ bs) h = ground arith

-- The listener that a successful opening leaves, whatever follows.
run-construct :
    (sets binds listens : Bool)
    → ((run (construct true sets binds listens)).accepting ≡ true)
      × ((run (construct true sets binds listens)).sessions ≡ 0)
      × ((construct true sets binds listens).is_listening ≡ (sets && binds && listens))
unfolding run construct
run-construct true true true = (refl, refl, refl)
run-construct true true false = (refl, refl, refl)
run-construct true false listens = (refl, refl, refl)
run-construct false binds listens = (refl, refl, refl)

-- A listener that has been constructed and run waits for a connection, after any accepts and also
-- after failed ones, exactly if its acceptor could be opened; then it has started one session for
-- each accept that succeeded, and else none. That setting the option, binding and listening succeeded
-- as well is not needed.
accept_all-run :
    (opens sets binds listens : Bool) (bs : List Bool)
    → let l = accept_all (run (construct opens sets binds listens)) bs in
      ((l.accepting ≡ true) ↔ (opens ≡ true))
      × (l.sessions ≡ (if opens then count_true bs else 0))
      × ((construct opens sets binds listens).is_listening ≡ (opens && sets && binds && listens))
accept_all-run false sets binds listens bs =
    unfold run construct in
    rw (accept_all-closed (run (construct false sets binds listens)) bs refl)
      ((λ h. ground arith, λ h. ground arith), refl, refl)
accept_all-run true sets binds listens bs =
    let (up, none_yet, listening) = run-construct sets binds listens in
    let (waits, started) = accept_all-accepting (run (construct true sets binds listens)) bs up in
    ((λ h. refl, λ h. waits), omega (arith, started, none_yet), listening)
