-- ===== src/Console/Client/Safety/Run.antt =====
-- What the client of src/Linux.cpp comes to, over any events.
use dlms_access_point.Prelude.{refl, Option, none, some, [], ◌∷◌, List, ℕ, Text, ◌≡◌}
use dlms_access_point.Console.Input.{Console}
use dlms_access_point.Console.Machine.{
  Outcome, returned, stopped, Stop, exited, end_of_input, null_pointer, released_socket, Safe,
  ◌>>=◌,
}
use dlms_access_point.Console.Pointers.{Library}
use dlms_access_point.Console.Client.{Client, the_pointers}
use dlms_access_point.Core.Registry
use dlms_access_point.Console.Client.Disconnect.{disconnect_confirm, confirm_over}
use dlms_access_point.Console.Client.Menu.{
  Choice, exit_application, tcp_connect, hdlc_physical_connect, hdlc_identify,
  hdlc_datalink_connect, serial_wrapper_connect, cosem_open, cosem_get, cosem_set, cosem_action,
  cosem_release, tcp_disconnect, hdlc_disconnect, nothing, perform, choice_of, client_menu, Event,
  menu, confirmation, network, Life, going, ended, after, chosen, step, run, new,
}
use dlms_access_point.Console.Client.Invariant.{IsSound, SerialReady}
use dlms_access_point.Console.Client.Safety.{
  Sound, settle-IsSound, on_tcp_connect-Sound, on_hdlc_physical_connect-Sound,
  on_serial_wrapper_connect-Sound,
}
use dlms_access_point.Console.Client.Safety.Requests.{
  on_cosem_open-Sound, on_cosem_get-Sound, on_cosem_set-Sound, on_cosem_action-Sound,
}
use dlms_access_point.Console.Client.Safety.Disconnect.{on_tcp_disconnect-Sound, confirm_over-Sound}
use dlms_access_point.Console.Client.Safety.Leaves.{
  Same, Leaves, Leaves-on_cosem_release, Leaves-on_hdlc_identify, Leaves-on_hdlc_datalink_connect,
  Leaves-on_hdlc_disconnect,
}

-- A call through a null pointer, or of an object whose socket has been removed.
abbrev IsFault : Stop → Type 0
IsFault exited = ⊥
IsFault end_of_input = ⊥
IsFault null_pointer = Unit
IsFault released_socket = Unit

-- The handlers whose tests do not cover every pointer that they go through; `none` is the
-- confirmation.
abbrev pub IsUnguarded : Option Choice → Type 0
IsUnguarded none = Unit
IsUnguarded (some exit_application) = ⊥
IsUnguarded (some tcp_connect) = ⊥
IsUnguarded (some hdlc_physical_connect) = ⊥
IsUnguarded (some hdlc_identify) = Unit
IsUnguarded (some hdlc_datalink_connect) = Unit
IsUnguarded (some serial_wrapper_connect) = ⊥
IsUnguarded (some cosem_open) = ⊥
IsUnguarded (some cosem_get) = ⊥
IsUnguarded (some cosem_set) = ⊥
IsUnguarded (some cosem_action) = ⊥
IsUnguarded (some cosem_release) = Unit
IsUnguarded (some tcp_disconnect) = ⊥
IsUnguarded (some hdlc_disconnect) = Unit
IsUnguarded (some nothing) = ⊥

module _ (lib : Library) where
  -- A client that goes on is sound; one that a fault has stopped was in an unguarded handler.
  abbrev Explained : Life lib → Type 0
  Explained (going s) = IsSound s.pointers
  Explained (ended who stop s) = IsFault stop → IsUnguarded who

  after-Safe :
      (who : Option Choice) (o : Outcome (Client lib) (Unit {0}))
      → Safe (Sound lib) o
      → Explained (after lib who o)
  unfolding after
  after-Safe who (returned _ s) safe = safe
  after-Safe who (stopped exited s) safe = λ fault. elim fault [ ]
  after-Safe who (stopped end_of_input s) safe = λ fault. elim fault [ ]
  after-Safe who (stopped null_pointer s) safe = elim safe [ ]
  after-Safe who (stopped released_socket s) safe = elim safe [ ]

  after_unguarded :
      (who : Option Choice) (s : Client lib) (o : Outcome (Client lib) (Unit {0}))
      → IsUnguarded who
      → IsSound s.pointers
      → Same lib s o
      → Explained (after lib who o)
  unfolding after
  after_unguarded who s (returned _ s') unguarded sound same =
      settle-IsSound s'.pointers (rw same sound)
  after_unguarded who s (stopped stop s') unguarded sound same = λ fault. unguarded

  after-perform :
      (c : Choice) (s : Client lib)
      → IsSound s.pointers
      → Explained (after lib (some c) (perform lib c s))
  unfolding perform Leaves
  after-perform exit_application s sound = after-Safe _ (perform lib exit_application s) tt
  after-perform tcp_connect s sound = after-Safe _ _ (on_tcp_connect-Sound lib s sound)
  after-perform hdlc_physical_connect s sound =
      after-Safe _ _ (on_hdlc_physical_connect-Sound lib s sound)
  after-perform hdlc_identify s sound =
      after_unguarded _ s _ tt sound (Leaves-on_hdlc_identify lib s)
  after-perform hdlc_datalink_connect s sound =
      after_unguarded _ s _ tt sound (Leaves-on_hdlc_datalink_connect lib s)
  after-perform serial_wrapper_connect s sound =
      after-Safe _ _ (on_serial_wrapper_connect-Sound lib s sound)
  after-perform cosem_open s sound = after-Safe _ _ (on_cosem_open-Sound lib s sound)
  after-perform cosem_get s sound = after-Safe _ _ (on_cosem_get-Sound lib s sound)
  after-perform cosem_set s sound = after-Safe _ _ (on_cosem_set-Sound lib s sound)
  after-perform cosem_action s sound = after-Safe _ _ (on_cosem_action-Sound lib s sound)
  after-perform cosem_release s sound =
      after_unguarded _ s _ tt sound (Leaves-on_cosem_release lib s)
  after-perform tcp_disconnect s sound = after-Safe _ _ (on_tcp_disconnect-Sound lib s sound)
  after-perform hdlc_disconnect s sound =
      after_unguarded _ s _ tt sound (Leaves-on_hdlc_disconnect lib s)
  after-perform nothing s sound =
      after-Safe _ (perform lib nothing s) (settle-IsSound s.pointers sound)

  after-confirm_over :
      (socket : Option ℕ) (s : Client lib)
      → IsSound s.pointers
      → SerialReady s.pointers socket
      → Explained (after lib none (confirm_over lib socket s))
  unfolding confirm_over after
  after-confirm_over none s sound ready = λ fault. tt
  after-confirm_over (some a) s sound ready =
      after-Safe _ _ (confirm_over-Sound lib a s sound ready)

  chosen-Explained :
      (s : Client lib) (line : Option (Text × Console))
      → IsSound s.pointers
      → Explained (chosen lib s line)
  unfolding chosen
  chosen-Explained s none sound = λ fault. elim fault [ ]
  chosen-Explained s (some (line, c)) sound = after-perform (choice_of line) _ sound

  step-Explained : (s : Client lib) (e : Event lib) → IsSound s.pointers → Explained (step lib s e)
  unfolding step client_menu disconnect_confirm the_pointers ◌>>=◌
  step-Explained s menu sound = chosen-Explained (client_menu lib s) _ sound
  step-Explained s confirmation sound =
      after-confirm_over s.pointers.serial_socket s sound sound.serial_ready
  step-Explained s (network n) sound = sound

  run-Explained :
      (s : Client lib) (es : List (Event lib)) → IsSound s.pointers → Explained (run lib s es)
  unfolding run
  run-Explained s [] sound = sound
  run-Explained s (e ∷ es) sound =
      go (step lib s e) (λ s'. run-Explained s' es) (step-Explained s e sound)
    where
      go :
          (o : Life lib)
          → ((s' : Client lib) → IsSound s'.pointers → Explained (run lib s' es))
          → Explained o
          → Explained (elim o [ going s' ↦ run lib s' es | ended who stop s' ↦ ended who stop s' ])
      go (going s') rest explained = rest s' explained
      go (ended who stop s') rest explained = explained

  Explained-along : (o o' : Life lib) → o ≡ o' → Explained o → Explained o'
  Explained-along o o' e explained = rw⁻¹ e explained

  run-new-Explained :
      (n : lib.Net) (input : List Text) (es : List (Event lib))
      → Explained (run lib (new lib n input) es)
  unfolding new Registry.new
  run-new-Explained n input es =
      run-Explained (new lib n input) es
        (record { ip_settled = refl; serial_settled = refl; engine_ready = tt; serial_ready = tt })

  -- A client that has just been constructed and that goes on after any events, with any library and
  -- any input, has sound pointers: no removal is posted, `m_pSocket` comes with an engine, both lead
  -- to sockets in the lists, and `m_pSerialSocket` leads to one in the serial list.
  pub run-new-IsSound :
      (n : lib.Net) (input : List Text) (es : List (Event lib)) (s : Client lib)
      → run lib (new lib n input) es ≡ going s
      → IsSound s.pointers
  run-new-IsSound n input es s e =
      Explained-along (run lib (new lib n input) es) (going s) e (run-new-Explained n input es)

  -- Where a call through a null pointer, or of an object whose socket has been removed, stops a client
  -- that has just been constructed, after any events, with any library and any input, that was in
  -- choice C, D, U or 5 or in the confirmation of a disconnect.
  pub run-new-IsUnguarded :
      (n : lib.Net) (input : List Text) (es : List (Event lib)) (who : Option Choice) (stop : Stop)
      (s : Client lib)
      → run lib (new lib n input) es ≡ ended who stop s
      → IsFault stop
      → IsUnguarded who
  run-new-IsUnguarded n input es who stop s e fault =
      Explained-along (run lib (new lib n input) es) (ended who stop s) e
        (run-new-Explained n input es) fault
