-- ===== src/Client/Session.antt =====
-- Class APsim of src/APsim.cpp, and HESsim of src/HESsim.cpp, which is the same text: a session with
-- one meter.
pub mod Open
pub mod Requests
mod Tests
use dlms_access_point.Prelude.{
  ℕ, ltb, if◌then◌else◌, Text, codes, zero, suc, ◌-◌, Bool, true, false, not, ◌&&◌, Option, none,
  some, List, [], ◌∷◌, ◌++◌,
}
use dlms_access_point.Client.Library.{Library}
use dlms_access_point.Client.Outcome.{Outcome, returned, thrown, unfinished, ◌>>=◌}

-- A line that a session prints.
pub data Line : Type 0 where
  connect_failed : Text → Line
  action_sent get_sent set_sent : ℕ → Line
  malformed_obis not_connected release_problem socket_released tcp_not_opened : Line

abbrev pub max_tries : ℕ
max_tries = 400

-- The disconnect object of class 70, whose methods 1 and 2 are in Meter/Disconnect.antt.
abbrev pub service_method : Bool → ℕ
service_method reconnect = if reconnect then 2 else 1

module _ (lib : Library) where
  open lib use {Engine, Value}

  -- `has_socket` is `m_pSocket != nullptr`. A token is `none` until a request sets it.
  pub record Session : Type 0 where
    pub engine : Engine
    pub has_socket : Bool
    pub get_token : Option ℕ
    pub set_token : Option ℕ
    pub action_token : Option ℕ
    pub output : List Line

  print_line : Session → Line → Session
  print_line s line = record s { output = s.output ++ line ∷ [] }

  -- The constructor.
  pub construct : Text → Engine → Session
  unfolding print_line
  construct meter_url e =
      let (e', opened) = lib.connect meter_url e in
      let s : Session = record {
        engine = e';
        has_socket = true;
        get_token = none;
        set_token = none;
        action_token = none;
        output = [];
      } in
      if opened then s else print_line s (connect_failed meter_url)

  -- The two tests that guard a session's calls.
  unfoldable pub is_linked : Session → Bool
  is_linked s = s.has_socket && lib.is_connected s.engine && lib.is_transport_connected s.engine

  pub is_ready : Session → Bool
  is_ready s = s.has_socket && lib.is_connected s.engine && lib.is_open s.engine

  unfoldable pub after_poll : Session → Session
  after_poll s = record s { engine = lib.poll s.engine }

  unfoldable pub polled : Session → Outcome Session
  unfolding after_poll
  polled s = if lib.throws s.engine then thrown else returned (after_poll s)

  -- The destructor.
  unfoldable pub destruct : Session → Outcome Session
  unfolding print_line polled
  destruct s =
      if s.has_socket
      then (polled s >>= λ s'. returned (
          print_line (record s' { engine = lib.release_socket s'.engine; has_socket = false })
            socket_released))
      else returned (print_line s tcp_not_opened)

  -- Server address 1 and APDUs of 640 bytes.
  unfoldable pub associated : Session → Session
  associated s = record s { engine = lib.open_association 1 640 s.engine }

  -- The body of the loop in `open`.
  open_round : ℕ → Session → Outcome (ℕ × Session)
  unfolding is_linked polled associated
  open_round tries s =
      polled s >>= λ s'. returned (if is_linked s' then (tries, associated s') else (tries - 1, s'))

  -- `do … while (…)` on fuel.
  open_loop : ℕ → ℕ → Session → Outcome (ℕ × Session)
  unfolding open_round is_linked
  open_loop zero tries s = unfinished
  open_loop (suc fuel) tries s = open_round tries s >>= λ r.
      let rest = open_loop fuel r.0 r.1 in
      if not (is_linked r.1) && ltb 0 r.0 then rest else returned r

  -- `return tries`, an int as a bool.
  pub open_session : ℕ → Session → Outcome (Bool × Session)
  open_session fuel s = open_loop fuel max_tries s >>= λ r. returned (ltb 0 r.0, r.1)

  released : Session → Bool × Session
  unfolding print_line
  released s =
      let (e, accepted) = lib.release s.engine in
      let s' = record s { engine = e } in
      if accepted then (true, s') else (false, print_line s' release_problem)

  pub close : Session → Outcome (Bool × Session)
  unfolding polled released
  close s = polled s >>= λ s'. returned (released s')

  -- A request that the engine may accept with a token.
  submit : Session → (Engine → Engine × Option ℕ) → (ℕ → Session → Session) → Bool × Session
  submit s request accepted =
      let (e, token) = request s.engine in
      let s' = record s { engine = e } in
      elim token [ none ↦ (false, s') | some n ↦ (true, accepted n s') ]

  -- The three requests behind their poll.
  act : ℕ → ℕ → Text → Value → Session → Bool × Session
  unfolding print_line is_ready submit
  act class_id method obis my_data s =
      if is_ready s
      then elim (lib.parse obis) [
        | none ↦ (false, print_line s malformed_obis)
        | some id ↦
            submit s
              (lib.action (record { class_id = class_id; member_id = method; instance_id = id })
                my_data)
              (λ n t. print_line (record t { action_token = some n }) (action_sent n))
      ]
      else (false, print_line s not_connected)

  pub ask : ℕ → ℕ → Text → Session → Bool × Session
  unfolding print_line is_ready submit
  ask class_id attribute obis s =
      if is_ready s
      then elim (lib.parse obis) [
        | none ↦ (false, print_line s malformed_obis)
        | some id ↦
            submit s
              (lib.get (record { class_id = class_id; member_id = attribute; instance_id = id }))
              (λ n t. print_line (record t { get_token = some n }) (get_sent n))
      ]
      else (false, print_line s not_connected)

  write : ℕ → ℕ → Text → Value → Session → Bool × Session
  unfolding print_line is_ready submit
  write class_id attribute obis my_data s =
      if is_ready s
      then elim (lib.parse obis) [
        | none ↦ (false, print_line s malformed_obis)
        | some id ↦
            submit s
              (lib.set (record { class_id = class_id; member_id = attribute; instance_id = id })
                my_data)
              (λ n t. print_line (record t { set_token = some n }) (set_sent n))
      ]
      else (false, print_line s not_connected)

  pub action : Session → ℕ → ℕ → Text → Value → Outcome (Bool × Session)
  unfolding polled act
  action s class_id method obis my_data =
      polled s >>= λ s'. returned (act class_id method obis my_data s')

  pub get : Session → ℕ → ℕ → Text → Outcome (Bool × Session)
  unfolding polled ask
  get s class_id attribute obis = polled s >>= λ s'. returned (ask class_id attribute obis s')

  pub set : Session → ℕ → ℕ → Text → Value → Outcome (Bool × Session)
  unfolding polled write
  set s class_id attribute obis my_data =
      polled s >>= λ s'. returned (write class_id attribute obis my_data s')

  pub service_connect : Session → Bool → Outcome (Bool × Session)
  unfolding action
  service_connect s reconnect =
      action s 70 (service_method reconnect) (codes "0-0:96.3.10*255") lib.null_data
