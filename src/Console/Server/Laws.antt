-- ===== src/Console/Server/Laws.antt =====
-- What the menu of class ServerApp of src/Linux.cpp comes to.
use dlms_access_point.Prelude.{
  ℕ, Text, ◌≡◌, Option, none, some, Bool, true, false, ◌||◌, Option-cases, inl, inr, arith,
  if◌then◌else◌, List, [], ◌∷◌,
}
use dlms_access_point.Core.Registry.{create_socket}
use dlms_access_point.Core.Registry.Laws.{holds}
use dlms_access_point.Console.Input.{Console}
use dlms_access_point.Console.Machine.{
  Outcome, returned, stopped, M, ◌>>=◌, Safe, exited, end_of_input, null_pointer, released_socket,
}
use dlms_access_point.Console.Pointers.{Handle}
use dlms_access_point.Console.Server.{
  Library, Choice, exit_application, tcp_server, hdlc_server, serial_wrapper_server, nothing,
  Server, console_op, say, open_or_say, new_tcp, new_serial, on_tcp_server, baud_rate,
  on_hdlc_server, on_serial_wrapper_server, perform, server_menu, step, run, new,
}

module _ (lib : Library) where
  open lib use {Net, Engine}

  abbrev EngineReady : Server lib → Option (Handle Engine) → Type 0
  EngineReady s none = Unit
  EngineReady s (some h) = (holds s.ip.sockets h.over || holds s.serial.sockets h.over) ≡ true

  -- The server's engine talks over a socket that is in a list.
  abbrev pub IsSound : Server lib → Type 0
  IsSound s = EngineReady s s.engine

  -- What is returned is sound, and no fault stops the handler.
  unfoldable Keeps : {A : Type 0} → M (Server lib) A → Type 0
  Keeps m = (s : Server lib) → IsSound s → Safe (λ _ s'. IsSound s') (m s)

  Safe-chain :
      {A B : Type 0} (o : Outcome (Server lib) A) (k : A → M (Server lib) B) (s : Server lib)
      → Safe (λ _ s'. IsSound s') o
      → ((a : A) → Keeps (k a))
      → Safe (λ _ s'. IsSound s') (((λ _. o) >>= k) s)
  unfolding ◌>>=◌ Keeps
  Safe-chain (returned a s') k s first rest = rest a s' first
  Safe-chain (stopped exited s') k s first rest = tt
  Safe-chain (stopped end_of_input s') k s first rest = tt
  Safe-chain (stopped null_pointer s') k s first rest = first
  Safe-chain (stopped released_socket s') k s first rest = first

  Keeps-bind :
      {A B : Type 0} (m : M (Server lib) A) (k : A → M (Server lib) B)
      → Keeps m
      → ((a : A) → Keeps (k a))
      → Keeps (m >>= k)
  unfolding Keeps ◌>>=◌
  Keeps-bind m k first rest s sound = Safe-chain (m s) k s (first s sound) rest

  Keeps-console_op : {A : Type 0} (f : Console → Option (A × Console)) → Keeps (console_op lib f)
  unfolding Keeps console_op
  Keeps-console_op f s sound = elim (Option-cases (f s.console)) [
    | inl e ↦ rw (e, Safe, console_op) tt
    | inr ((a, c), e) ↦ rw (e, Safe, console_op) sound
  ]

  Keeps-say : (line : Text) → Keeps (say lib line)
  unfolding Keeps say
  Keeps-say line s sound = sound

  Keeps-open_or_say :
      (a : ℕ) (port : Option Text) (message : Text) → Keeps (open_or_say lib a port message)
  unfolding Keeps open_or_say say
  Keeps-open_or_say a port message s sound = go (lib.open_socket a port s.net).1
    where
      go :
          (opened : Bool)
          → Safe
              (λ _ s'. IsSound s')
              ((if opened
                then returned tt (record s { net = (lib.open_socket a port s.net).0 })
                else say lib message (record s { net = (lib.open_socket a port s.net).0 })))
      go true = sound
      go false = sound

  Keeps-new_tcp : Keeps (new_tcp lib)
  unfolding Keeps new_tcp create_socket holds
  Keeps-new_tcp s sound = ground arith

  Keeps-new_serial : (construct : ℕ → Net → Net × Engine) → Keeps (new_serial lib construct)
  unfolding Keeps new_serial create_socket holds
  Keeps-new_serial construct s sound = ground arith

  ruleset keeps =
      (Keeps-bind, Keeps-console_op, Keeps-say, Keeps-open_or_say, Keeps-new_tcp, Keeps-new_serial)

  Keeps-baud_rate : Keeps (baud_rate lib)
  unfolding baud_rate
  Keeps-baud_rate = search keeps

  Keeps-on_tcp_server : Keeps (on_tcp_server lib)
  unfolding on_tcp_server
  Keeps-on_tcp_server = search keeps

  Keeps-on_hdlc_server : Keeps (on_hdlc_server lib)
  unfolding on_hdlc_server
  Keeps-on_hdlc_server = search (keeps, Keeps-baud_rate) depth 9

  Keeps-on_serial_wrapper_server : Keeps (on_serial_wrapper_server lib)
  unfolding on_serial_wrapper_server
  Keeps-on_serial_wrapper_server = search (keeps, Keeps-baud_rate) depth 9

  Keeps-perform : (c : Choice) → Keeps (perform lib c)
  unfolding perform Keeps
  Keeps-perform exit_application s sound = tt
  Keeps-perform nothing s sound = sound
  Keeps-perform tcp_server s sound = Keeps-on_tcp_server s sound
  Keeps-perform hdlc_server s sound = Keeps-on_hdlc_server s sound
  Keeps-perform serial_wrapper_server s sound = Keeps-on_serial_wrapper_server s sound

  Keeps-server_menu : Keeps (server_menu lib)
  unfolding server_menu
  Keeps-server_menu = search keeps depth 9

  Keeps-step : Keeps (step lib)
  unfolding step
  Keeps-step = search (Keeps-bind, Keeps-server_menu, Keeps-perform)

  Keeps-run : (ns : List Net) → Keeps (run lib ns)
  unfolding run Keeps
  Keeps-run [] s sound = sound
  Keeps-run (n ∷ ns) s sound =
      Keeps-bind (step lib) (λ _. run lib ns) Keeps-step (λ _. Keeps-run ns) (record s { net = n })
        sound

  -- A server that has just been constructed, with any library, any input and any behaviour of the
  -- network between its menus: no call through a null pointer or of a removed socket stops it, and
  -- when the rounds are over its engine, where there is one, talks over a socket that is in a list.
  pub run-new-Safe :
      (n : Net) (input : List Text) (ns : List Net)
      → Safe (λ _ s'. IsSound s') (run lib ns (new lib n input))
  unfolding new Keeps
  run-new-Safe n input ns = Keeps-run ns (new lib n input) tt
