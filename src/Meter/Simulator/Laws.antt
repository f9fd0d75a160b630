-- ===== src/Meter/Simulator/Laws.antt =====
-- When a meter serves, and what it says of its registration.
use dlms_access_point.Prelude.{
  ℕ, ◌+◌, if◌then◌else◌, ◌≡◌, refl, true, ◌&&◌, List, [], ◌∷◌, ◌++◌, arith, Bool-cases, inl, inr,
  false,
}
use dlms_access_point.Meter.Simulator.{
  Line, registered_with, meter_listening, failed_to_listen, what, Round, Meter, run, new, step,
}

-- The rounds up to the first in which the request was sent.
pub tries : List Round → ℕ
tries [] = 0
tries (r ∷ rs) = let later = tries rs in if r.connects && r.writes then 1 else later + 1

-- The rounds behind it, up to the first whose socket could not be opened.
served : List Round → ℕ
served [] = 0
served (r ∷ rs) = let later = served rs in if r.opens then later + 1 else 1

pub served_after : List Round → ℕ
unfolding served
served_after [] = 0
served_after (r ∷ rs) =
    let later = served_after rs in if r.connects && r.writes then served rs else later

pub says_registered : Line → ℕ
says_registered registered_with = 1
says_registered meter_listening = 0
says_registered failed_to_listen = 0
says_registered what = 0

pub says_listening : Line → ℕ
says_listening registered_with = 0
says_listening meter_listening = 1
says_listening failed_to_listen = 0
says_listening what = 0

pub total : (Line → ℕ) → List Line → ℕ
total f [] = 0
total f (l ∷ ls) = f l + total f ls

total-append : (f : Line → ℕ) (xs ys : List Line) → total f (xs ++ ys) ≡ total f xs + total f ys
unfolding total
total-append f [] ys = omega arith
total-append f (x ∷ xs) ys = omega (arith, total-append f xs ys)

run-exited : (m : Meter) (rs : List Round) → m.exited ≡ true → run m rs ≡ m
unfolding run
run-exited m [] h = refl
run-exited m (r ∷ rs) h = ground arith

run-served :
    (output : List Line) (rs : List Round)
    → let m = run (record { reg = true; exited = false; output = output }) rs in
      (total says_registered m.output ≡ total says_registered output)
      × (total says_listening m.output ≡ total says_listening output + served rs)
unfolding run step total says_registered says_listening served
run-served output [] = (refl, omega arith)
run-served output (r ∷ rs) = elim (Bool-cases r.opens) [
  | inl e ↦ ground (
    arith,
    run-served (output ++ meter_listening ∷ []) rs,
    total-append says_registered output (meter_listening ∷ []),
    total-append says_listening output (meter_listening ∷ []),
  )
  | inr e ↦ ground (
    arith,
    run-exited
        (record {
          reg = true;
          exited = true;
          output = output ++ meter_listening ∷ failed_to_listen ∷ [];
        })
        rs refl,
    total-append says_registered output (meter_listening ∷ failed_to_listen ∷ []),
    total-append says_listening output (meter_listening ∷ failed_to_listen ∷ []),
  )
]

run-tries :
    (output : List Line) (rs : List Round)
    → let m = run (record { reg = false; exited = false; output = output }) rs in
      (total says_registered m.output ≡ total says_registered output + tries rs)
      × (total says_listening m.output ≡ total says_listening output + served_after rs)
unfolding run step total says_registered says_listening tries served_after
run-tries output [] = (omega arith, omega arith)
run-tries output (r ∷ rs) = elim (Bool-cases (r.connects && r.writes)) [
  | inl e ↦ ground (
    arith,
    run-served (output ++ registered_with ∷ []) rs,
    total-append says_registered output (registered_with ∷ []),
    total-append says_listening output (registered_with ∷ []),
  )
  | inr e ↦ ground (
    arith,
    run-tries ((output ++ what ∷ []) ++ registered_with ∷ []) rs,
    total-append says_registered (output ++ what ∷ []) (registered_with ∷ []),
    total-append says_listening (output ++ what ∷ []) (registered_with ∷ []),
    total-append says_registered output (what ∷ []),
    total-append says_listening output (what ∷ []),
  )
]

-- Whatever happens in its rounds, a meter says that it has registered once for each round up to the
-- first that sends the request, so also for each that failed; and it listens once in each later round
-- up to the first whose socket cannot be opened, which ends it, and never before it has registered.
pub run-new :
    (rs : List Round)
    → let m = run new rs in
      (total says_registered m.output ≡ tries rs)
      × (total says_listening m.output ≡ served_after rs)
unfolding new total
run-new rs =
    let (said, listened) = run-tries [] rs in (omega (arith, said), omega (arith, listened))
