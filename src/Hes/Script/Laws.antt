-- ===== src/Hes/Script/Laws.antt =====
-- A script ends, and what its result says.
use dlms_access_point.Prelude.{
  ℕ, Text, ◌+◌, ◌≤◌, ◌≡◌, refl, Bool, true, ◌&&◌, List, [], ◌∷◌, ◌∙◌, false, arith,
}
use dlms_access_point.Client.Library.{Library}
use dlms_access_point.Client.Outcome.{
  Outcome, returned, thrown, unfinished, ◌>>=◌, Ends, Ends-bind, Ends-map,
}
use dlms_access_point.Client.Session.{
  Session, max_tries, construct, destruct, get, close, service_connect, open_session, is_linked,
  associated,
}
use dlms_access_point.Client.Session.Open.{Throws, open_session-Ends}
use dlms_access_point.Client.Session.Requests.{
  get-Ends, close-Ends, destruct-Ends, service_connect-Ends,
}
use dlms_access_point.Hes.Message.{Payload}
use dlms_access_point.Hes.Script.{visit, run_script}

-- All three requests of a visit were accepted.
abbrev pub accepted : Bool × Bool × Bool → Bool
accepted a = a.0 && a.1 && a.2

pub all_accepted : List (Bool × Bool × Bool) → Bool
all_accepted [] = true
all_accepted (a ∷ rs) = accepted a && all_accepted rs

and_true : (b : Bool) → b ≡ (b && true)
and_true true = refl
and_true false = refl

and_assoc : (b c d e f : Bool) → ((b && c && d && e) && f) ≡ (b && ((c && d && e) && f))
and_assoc b c d e f = ground arith

module _ (lib : Library) where
  open lib use {Engine}

  -- The visits to the meters, each from the state that the one before left.
  pub Visits :
      ℕ → (ℕ → Payload) → ℕ → List Text → Engine → List (Bool × Bool × Bool) → Engine → Type 0
  Visits fuel size_at n [] e [] e' = e ≡ e'
  Visits fuel size_at n [] e (a ∷ rs) e' = ⊥
  Visits fuel size_at n (m ∷ ms) e [] e' = ⊥
  Visits fuel size_at n (m ∷ ms) e (a ∷ rs) e' =
      (next : Engine) × (visit lib fuel m (size_at n) e ≡ returned (next, a))
      × Visits fuel size_at (n + 1) ms next rs e'

  -- All the visits were made, and `result` is that of all that was accepted before and in them.
  abbrev pub AllVisited : ℕ → (ℕ → Payload) → ℕ → List Text → Bool → Engine → Engine × Bool → Type 0
  AllVisited fuel size_at n meters result e (e', final) =
      (rs : List (Bool × Bool × Bool)) × Visits fuel size_at n meters e rs e'
      × (final ≡ (result && all_accepted rs))

  module _
      (kept : (s : Session lib) → is_linked lib s ≡ true → is_linked lib (associated lib s) ≡ true)
      (fuel : ℕ) (enough : max_tries ≤ fuel) where
    visit-Ends :
        (metername : Text) (size : Payload) (e : Engine)
        → Ends (Throws lib) (λ v. Unit) (visit lib fuel metername size e)
    unfolding visit
    visit-Ends metername size e =
        Ends-bind (Throws lib) (λ r. Unit) _ (open_session lib fuel (construct lib metername e)) _
          (open_session-Ends lib kept fuel (construct lib metername e) enough)
          λ o _.
            Ends-bind (Throws lib) (λ r. Unit) _ (service_connect lib o.1 true) _
              (service_connect-Ends lib o.1 true)
              λ r _.
                Ends-bind (Throws lib) (λ r. Unit) _ (get lib r.1 8 2 _) _ (get-Ends lib r.1 8 2 _)
                  λ t _.
                    Ends-bind (Throws lib) (λ r. Unit) _ (get lib t.1 1 2 _) _
                      (get-Ends lib t.1 1 2 _)
                      λ p _.
                        Ends-bind (Throws lib) (λ r. Unit) _ (close lib p.1) _ (close-Ends lib p.1)
                          λ c _.
                            Ends-bind (Throws lib) (λ r. Unit) _ (destruct lib c.1) _
                              (destruct-Ends lib c.1) λ s _. tt

    run_script-AllVisited :
        (size_at : ℕ → Payload) (n : ℕ) (meters : List Text) (result : Bool) (e : Engine)
        → Ends
            (Throws lib)
            (AllVisited fuel size_at n meters result e)
            (run_script lib fuel size_at n meters result e)
    unfolding run_script Visits all_accepted ◌>>=◌
    run_script-AllVisited size_at n [] result e = ([], refl, and_true result)
    run_script-AllVisited size_at n (m ∷ ms) result e =
        go (visit lib fuel m (size_at n) e)
          (λ a e1. run_script-AllVisited size_at (n + 1) ms (result && a.0 && a.1 && a.2) e1) refl
          (visit-Ends m (size_at n) e)
      where
        go :
            (o : Outcome (Engine × (Bool × Bool × Bool)))
            → ((a : Bool × Bool × Bool) (e1 : Engine)
                → let result' = result && a.0 && a.1 && a.2 in
                  Ends
                    (Throws lib)
                    (AllVisited fuel size_at (n + 1) ms result' e1)
                    (run_script lib fuel size_at (n + 1) ms result' e1))
            → visit lib fuel m (size_at n) e ≡ o
            → Ends (Throws lib) (λ v. Unit) o
            → Ends (Throws lib) (AllVisited fuel size_at n (m ∷ ms) result e) (
                o >>= λ v.
                run_script lib fuel size_at (n + 1) ms (result && v.1.0 && v.1.1 && v.1.2) v.0)
        go (returned (e1, a)) later seen h =
            let result' = result && a.0 && a.1 && a.2 in
            Ends-map (Throws lib) (AllVisited fuel size_at (n + 1) ms result' e1)
              (AllVisited fuel size_at n (m ∷ ms) result e)
              (run_script lib fuel size_at (n + 1) ms result' e1) (later a e1)
              λ (e', final) (rs, rest, all).
                (a ∷ rs, (e1, seen, rest), all ∙ and_assoc result a.0 a.1 a.2 (all_accepted rs))
        go thrown later seen h = h
        go unfinished later seen h = elim h [ ]

    -- Where opening an association leaves the transport connected, a script ends (with at least
    -- `max_tries` of fuel for each `open`) whatever the meters do. It is left by the exception of a
    -- poll; or it has visited every meter in turn, also behind one that failed, and it succeeds
    -- exactly if at every meter the service connection and both requests for a value were accepted.
    pub run_script-all_accepted :
        (size_at : ℕ → Payload) (meters : List Text) (e : Engine)
        → Ends
            (Throws lib)
            (λ r.
              (rs : List (Bool × Bool × Bool)) × Visits fuel size_at 0 meters e rs r.0
              × (r.1 ≡ all_accepted rs))
            (run_script lib fuel size_at 0 meters true e)
    run_script-all_accepted size_at meters e = run_script-AllVisited size_at 0 meters true e
