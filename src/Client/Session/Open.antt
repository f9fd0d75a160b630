-- ===== src/Client/Session/Open.antt =====
-- The loop that waits for the transport and opens the association.
use dlms_access_point.Prelude.{
  ℕ, ltb, if◌then◌else◌, Bool-cases, zero, suc, ◌≤◌, ◌≡◌, inl, inr, Bool, true, false, arith,
}
use dlms_access_point.Client.Library.{Library}
use dlms_access_point.Client.Outcome.{Outcome, returned, thrown, ◌>>=◌, Ends}
use dlms_access_point.Client.Session.{
  Session, is_linked, polled, after_poll, associated, open_loop, max_tries, open_session,
}

module _ (lib : Library) where
  -- Some poll is left by an exception.
  abbrev pub Throws : Type 0
  Throws = (e : lib.Engine) × (lib.throws e ≡ true)

  -- At most `n` polls, the first that throws being the last; at the first that finds the transport
  -- connected, one association is opened.
  pub waiting : ℕ → Session lib → Outcome (Bool × Session lib)
  unfolding after_poll is_linked associated
  waiting zero s = returned (false, s)
  waiting (suc n) s =
      let s' = after_poll lib s in
      let later = waiting n s' in
      if lib.throws s.engine
      then thrown
      else if is_linked lib s'
      then returned (true, associated lib s')
      else later

  pub waiting-Ends : (n : ℕ) (s : Session lib) → Ends Throws (λ r. Unit) (waiting n s)
  unfolding waiting
  waiting-Ends zero s = tt
  waiting-Ends (suc n) s = elim (Bool-cases (lib.throws s.engine)) [
    | inl t ↦ rw (t) (s.engine, t)
    | inr f ↦ elim (Bool-cases (is_linked lib (after_poll lib s))) [
      | inl e ↦ rw (f, e) tt
      | inr e ↦ rw (f, e) (waiting-Ends n (after_poll lib s))
    ]
  ]

  module _
      (kept : (s : Session lib)
        → is_linked lib s ≡ true
        → is_linked lib (associated lib s) ≡ true) where
    open_loop-waiting :
        (fuel n : ℕ) (s : Session lib)
        → suc n ≤ fuel
        → (open_loop lib fuel (suc n) s >>= λ r. returned (ltb 0 r.0, r.1)) ≡ waiting (suc n) s
    unfolding open_loop waiting polled ◌>>=◌
    open_loop-waiting zero n s h = absurd (omega arith)
    open_loop-waiting (suc fuel) zero s h = elim (Bool-cases (is_linked lib (after_poll lib s))) [
      | inl e ↦ ground (arith, kept (after_poll lib s) e)
      | inr e ↦ ground arith
    ]
    open_loop-waiting (suc fuel) (suc n) s h =
        elim (Bool-cases (is_linked lib (after_poll lib s))) [
          | inl e ↦ ground (arith, kept (after_poll lib s) e)
          | inr e ↦
              let later = open_loop-waiting fuel n (after_poll lib s) (omega arith) in ground arith
        ]

    -- Where opening an association leaves the transport connected, `open` ends within `max_tries`
    -- rounds (fuel that is at least that is enough), and does what `waiting` does: it polls until the
    -- transport is connected, at most `max_tries` times, then opens one association and answers true;
    -- if the transport never connects it opens none and answers false; and if one of these polls
    -- throws, the exception leaves it.
    pub open_session-waiting :
        (fuel : ℕ) (s : Session lib)
        → max_tries ≤ fuel
        → open_session lib fuel s ≡ waiting max_tries s
    unfolding open_session
    open_session-waiting fuel s h = open_loop-waiting fuel 399 s h

    pub open_session-Ends :
        (fuel : ℕ) (s : Session lib)
        → max_tries ≤ fuel
        → Ends Throws (λ r. Unit) (open_session lib fuel s)
    open_session-Ends fuel s h = rw (open_session-waiting fuel s h) (waiting-Ends max_tries s)
