-- ===== src/Console/Client/Safety/Faults.antt =====
-- Calls of the handlers of src/Linux.cpp through pointers that they have not tested.
use dlms_access_point.Prelude.{
  ap, ◌∙◌, Text, codes, ◌≡◌, refl, Option, none, some, false, ◌∷◌, List, ℕ, true, arith,
}
use dlms_access_point.Console.Input.{print_line, get_line, take_line}
use dlms_access_point.Core.Registry.Laws.{holds, process_idle, process-release_socket}
use dlms_access_point.Console.Machine.{
  Outcome, bind-stopped, Stop, null_pointer, released_socket, stopped, ◌>>=◌,
}
use dlms_access_point.Console.Pointers.{Library, Handle, is_alive, Pointers, release_serial, settle}
use dlms_access_point.Console.Client.{
  net_do, set_pointers, say, Client, through, touch, the_pointers, the_engine,
}
use dlms_access_point.Console.Client.Connect.{on_hdlc_identify, identify_over}
use dlms_access_point.Console.Client.Requests.{on_cosem_release}
use dlms_access_point.Console.Client.Disconnect.{confirm_over, disconnect_confirm}
use dlms_access_point.Console.Client.Invariant.{SerialReady, IsSound}
use dlms_access_point.Console.Client.Menu.{
  Choice, client_menu, Event, menu, ended, chosen, step, run, cosem_release, hdlc_identify, initial,
  choice_of, perform, confirmation, Life, going, after,
}

module _ (lib : Library) where
  through-none :
      {A : Type 0} (h : Option (Handle A)) (s : Client lib)
      → h ≡ none
      → through lib h s ≡ stopped null_pointer s
  unfolding through
  through-none h s e = rw e refl

  through-released :
      {A : Type 0} (h : Handle A) (s : Client lib)
      → is_alive s.pointers h.over ≡ false
      → through lib (some h) s ≡ stopped released_socket s
  unfolding through touch
  through-released h s e = rw (e, through, touch) refl

  get_line-take :
      (input output : List Text) (line : Text) (rest : List Text)
      → input ≡ line ∷ rest
      → get_line (record { input = input; output = output })
        ≡ some (line, record { input = rest; output = output })
  unfolding get_line take_line
  get_line-take input output line rest e = rw e refl

  -- A life that has ended in a handler, in a way.
  abbrev pub HasEnded : Life lib → Option Choice → Stop → Type 0
  HasEnded (going s) who stop = ⊥
  HasEnded (ended who' stop' s) who stop = (who' ≡ who) × (stop' ≡ stop)

  HasEnded-after :
      (who : Option Choice) (o : Outcome (Client lib) (Unit {0})) (stop : Stop) (s : Client lib)
      → o ≡ stopped stop s
      → HasEnded (after lib who o) who stop
  unfolding after
  HasEnded-after who o stop s e = rw (e, after) (refl, refl)

  run-HasEnded :
      (s : Client lib) (e : Event lib) (es : List (Event lib)) (who : Option Choice) (stop : Stop)
      → HasEnded (step lib s e) who stop
      → HasEnded (run lib s (e ∷ es)) who stop
  unfolding run
  run-HasEnded s e es who stop now = go (step lib s e) now
    where
      go :
          (o : Life lib)
          → HasEnded o who stop
          → HasEnded (elim o [ going s' ↦ run lib s' es | ended w t s' ↦ ended w t s' ]) who stop
      go (going s') now' = elim now' [ ]
      go (ended w t s') now' = now'

  the_engine-none :
      (s : Client lib) → s.pointers.engine ≡ none → the_engine lib s ≡ stopped null_pointer s
  unfolding the_engine the_pointers ◌>>=◌
  the_engine-none s e = through-none s.pointers.engine s e

  perform-release :
      (s : Client lib)
      → s.pointers.engine ≡ none
      → perform lib cosem_release s ≡ stopped null_pointer s
  unfolding perform on_cosem_release
  perform-release s e = bind-stopped (the_engine lib) _ s s null_pointer (the_engine-none s e)

  -- Choice 5 of a client that has no engine is a call through a null pointer.
  release_unconnected :
      (s : Client lib) (rest : List Text) (es : List (Event lib))
      → s.pointers.engine ≡ none
      → s.console.input ≡ codes "5" ∷ rest
      → HasEnded (run lib s (menu ∷ es)) (some cosem_release) null_pointer
  unfolding step chosen client_menu choice_of initial after
  release_unconnected s rest es no_engine typed = run-HasEnded s menu es _ _ (
      rw (get_line-take s.console.input _ (codes "5") rest typed)
        (HasEnded-after _ _ _ _ (perform-release _ no_engine)))

  is_alive-settle :
      (p : Pointers lib.Engine lib.Hdlc) (a : ℕ)
      → IsSound p
      → holds p.ip.sockets a ≡ false
      → is_alive (settle (release_serial p a)) a ≡ false
  unfolding settle release_serial
  is_alive-settle p a sound e =
      rw (process_idle p.ip sound.ip_settled)
        (ground (arith, (process-release_socket p.serial a a).1))

  identify_over-released :
      (o : Option (Handle lib.Hdlc)) (h : Handle lib.Hdlc) (s : Client lib)
      → o ≡ some h
      → is_alive s.pointers h.over ≡ false
      → identify_over lib o s ≡ stopped released_socket s
  unfolding identify_over
  identify_over-released o h s e released =
      rw (e, identify_over) (bind-stopped _ _ s s _ (through-released h s released))

  perform-identify :
      (s : Client lib) (h : Handle lib.Hdlc)
      → s.pointers.hdlc ≡ some h
      → is_alive s.pointers h.over ≡ false
      → perform lib hdlc_identify s ≡ stopped released_socket s
  unfolding perform on_hdlc_identify the_pointers ◌>>=◌
  perform-identify s h e released = identify_over-released s.pointers.hdlc h s e released

  identify_released :
      (s : Client lib) (h : Handle lib.Hdlc) (rest : List Text) (es : List (Event lib))
      → s.pointers.hdlc ≡ some h
      → is_alive s.pointers h.over ≡ false
      → s.console.input ≡ codes "C" ∷ rest
      → HasEnded (run lib s (menu ∷ es)) (some hdlc_identify) released_socket
  unfolding step chosen client_menu choice_of initial after
  identify_released s h rest es e released typed = run-HasEnded s menu es _ _ (
      rw (get_line-take s.console.input _ (codes "C") rest typed)
        (HasEnded-after _ _ _ _ (perform-identify _ h e released)))

  -- A confirmation of a client with a serial socket that is in the list, whatever follows.
  run-confirmation :
      (s : Client lib) (socket : Option ℕ) (a : ℕ) (es : List (Event lib)) (P : Life lib → Type 0)
      → socket ≡ some a
      → is_alive s.pointers a ≡ true
      → ((s' : Client lib)
          → s'.pointers ≡ settle (release_serial s.pointers a)
          → s'.console.input ≡ s.console.input
          → P (run lib s' es))
      → P (elim (after lib none (confirm_over lib socket s)) [
        | going s' ↦ run lib s' es
        | ended who stop s' ↦ ended who stop s'
      ])
  unfolding after confirm_over touch net_do the_pointers set_pointers say print_line ◌>>=◌
  run-confirmation s socket a es P e alive rest =
      rw (e, confirm_over, touch, alive) (rest _ refl refl)

  SerialReady-alive :
      (p : Pointers lib.Engine lib.Hdlc) (socket : Option ℕ) (a : ℕ)
      → socket ≡ some a
      → SerialReady p socket
      → is_alive p a ≡ true
  SerialReady-alive p none a e ready = ground arith
  SerialReady-alive p (some b) a e ready = ground arith

  -- A client whose pointers are sound and whose HDLC layer talks over its serial socket, one that is
  -- not in the IP list: after a confirmation of a disconnect, choice C calls an object whose socket
  -- has been removed.
  pub identify_disconnected :
      (s : Client lib) (h : Handle lib.Hdlc) (rest : List Text) (es : List (Event lib))
      → IsSound s.pointers
      → s.pointers.hdlc ≡ some h
      → s.pointers.serial_socket ≡ some h.over
      → holds s.pointers.ip.sockets h.over ≡ false
      → s.console.input ≡ codes "C" ∷ rest
      → HasEnded (run lib s (confirmation ∷ menu ∷ es)) (some hdlc_identify) released_socket
  unfolding run step disconnect_confirm the_pointers ◌>>=◌ settle release_serial
  identify_disconnected s h rest es sound e over other typed =
      run-confirmation s s.pointers.serial_socket h.over (menu ∷ es)
        (λ o. HasEnded o (some hdlc_identify) released_socket) over
        (SerialReady-alive s.pointers s.pointers.serial_socket h.over over sound.serial_ready)
        (λ s' p c.
          identify_released s' h rest es (ap (λ q. q.hdlc) p ∙ e)
            (ap (λ q. is_alive q h.over) p ∙ is_alive-settle s.pointers h.over sound other)
            (c ∙ typed))
