-- ===== src/Client/Session/Requests.antt =====
-- When a session's requests go out, and what a meter makes of a service connection.
use dlms_access_point.Prelude.{
  ℕ, if◌then◌else◌, Text, ◌≡◌, ◌↔◌, ◌⊎◌, inl, inr, Bool-cases, Bool, true, false, Option, some, [],
  ◌∷◌, ◌++◌, arith, none, List,
}
use dlms_access_point.Client.Library.{Library}
use dlms_access_point.Client.Outcome.{returned, thrown, ◌>>=◌, Ends}
use dlms_access_point.Client.Session.Open.{Throws}
use dlms_access_point.Client.Session.{
  ask, close, destruct, set, Session, get_sent, not_connected, is_ready, after_poll, polled, action,
  get, service_method, service_connect, Line,
}
use dlms_access_point.Meter.Disconnect.{Disconnect, internal_action}
use dlms_access_point.Meter.Cosem.{ActionResult}

module _ (lib : Library) where
  open lib use {Value, Oid}

  -- The session after a call that found no connection.
  abbrev unlinked : Session lib → Session lib
  unlinked s = record s { engine = lib.poll s.engine; output = s.output ++ not_connected ∷ [] }

  -- Where the socket or the association is not open after the poll, and that does not throw, every kind of request answers
  -- false, prints one line, and leaves the engine as the poll left it and the tokens as they were.
  requests_unready :
      (s : Session lib) (class_id member_id : ℕ) (obis : Text) (value : Value) (reconnect : Bool)
      → lib.throws s.engine ≡ false
      → is_ready lib (after_poll lib s) ≡ false
      → (get lib s class_id member_id obis ≡ returned (false, unlinked s))
        × (set lib s class_id member_id obis value ≡ returned (false, unlinked s))
        × (action lib s class_id member_id obis value ≡ returned (false, unlinked s))
        × (service_connect lib s reconnect ≡ returned (false, unlinked s))
  unfolding get set action service_connect polled ◌>>=◌
  requests_unready s class_id member_id obis value reconnect quiet h =
      (ground arith, ground arith, ground arith, ground arith)

  -- The line that tells a token.
  abbrev pub announced : Option ℕ → List Line
  announced none = []
  announced (some n) = get_sent n ∷ []

  -- Each request that can go out: what the engine is asked, and what it answers.
  abbrev pub Asked : Session lib → ℕ → ℕ → Text → (Oid → Option ℕ) → Type 0
  Asked s class_id member_id obis answer =
      (is_ready lib (after_poll lib s) ≡ true)
      × ((id : Oid) × (lib.parse obis ≡ some id) × ((n : ℕ) × (answer id ≡ some n)))

  -- The exception of its poll leaves `Get`. Otherwise it answers true exactly if after that the
  -- socket and the association are open, the OBIS code can be read and the engine accepts the request
  -- for that class, attribute and instance. The engine's token is then stored and printed; otherwise
  -- the stored token is unchanged.
  pub get-Asked :
      (s : Session lib) (class_id attribute : ℕ) (obis : Text)
      → let r = ask lib class_id attribute obis (after_poll lib s) in
        let answer = λ (id : Oid).
          (lib.get
            (record { class_id = class_id; member_id = attribute; instance_id = id })
            (lib.poll s.engine)).1 in
        (get lib s class_id attribute obis ≡ (if lib.throws s.engine then thrown else returned r))
        × ((r.0 ≡ true) ↔ Asked s class_id attribute obis answer)
        × (((r.0 ≡ true) × (r.1.output ≡ s.output ++ announced r.1.get_token))
            ⊎ ((r.0 ≡ false) × (r.1.get_token ≡ s.get_token)))
  unfolding get polled ◌>>=◌ ask
  get-Asked s class_id attribute obis =
      (ground arith, (λ h. ground arith, λ h. ground arith), ground arith)

  -- What runs behind one poll ends.
  polled-Ends :
      {A : Type 0} (s : Session lib) (f : Session lib → A)
      → Ends (Throws lib) (λ r. Unit) (polled lib s >>= λ s'. returned (f s'))
  unfolding polled ◌>>=◌
  polled-Ends s f = elim (Bool-cases (lib.throws s.engine)) [
    | inl t ↦ rw (t) (s.engine, t)
    | inr h ↦ rw (h) tt
  ]

  pub get-Ends :
      (s : Session lib) (class_id attribute : ℕ) (obis : Text)
      → Ends (Throws lib) (λ r. Unit) (get lib s class_id attribute obis)
  unfolding get
  get-Ends s class_id attribute obis = polled-Ends s _

  pub service_connect-Ends :
      (s : Session lib) (reconnect : Bool)
      → Ends (Throws lib) (λ r. Unit) (service_connect lib s reconnect)
  unfolding service_connect action
  service_connect-Ends s reconnect = polled-Ends s _

  pub close-Ends : (s : Session lib) → Ends (Throws lib) (λ r. Unit) (close lib s)
  unfolding close
  close-Ends s = polled-Ends s _

  pub destruct-Ends : (s : Session lib) → Ends (Throws lib) (λ r. Unit) (destruct lib s)
  unfolding destruct polled ◌>>=◌
  destruct-Ends s = elim (Bool-cases s.has_socket) [
    | inl t ↦ elim (Bool-cases (lib.throws s.engine)) [
      | inl h ↦ rw (t, h) (s.engine, h)
      | inr h ↦ rw (t, h) tt
    ]
    | inr f ↦ rw (f) tt
  ]

-- The method that a service connection asks for has the effect that it is named for: a meter in
-- control mode 2 or 4 (2 is the one it starts in) answers it with success, and its output is on
-- afterwards exactly if the request was to reconnect.
pub internal_action-service_method :
    (d : Disconnect) (reconnect : Bool)
    → (d.control_mode ≡ 2) ⊎ (d.control_mode ≡ 4)
    → let r = internal_action d (service_method reconnect) in
      (r.0 ≡ ActionResult.success) × (r.1.is_connected ≡ reconnect)
unfolding internal_action
internal_action-service_method d true h = ground arith
internal_action-service_method d false h = ground arith
