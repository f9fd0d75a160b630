-- ===== src/Console/Client/Safety/Disconnect.antt =====
-- What choice T of src/Linux.cpp and DisconnectConfirm leave of a client's pointers.
use dlms_access_point.Prelude.{arith, Text, ◌≡◌, true, Option, none, some, ℕ}
use dlms_access_point.Core.Registry.Laws.{holds, process_idle, process-release_socket}
use dlms_access_point.Console.Machine.{◌>>◌, ◌>>=◌, Safe}
use dlms_access_point.Console.Pointers.{
  Library, Handle, release_ip, Pointers, is_alive, release_serial, settle,
}
use dlms_access_point.Console.Client.{Client, say, set_pointers}
use dlms_access_point.Console.Client.Invariant.{
  EngineReady, IsSound, Safe-touch, Safe-net_do, Safe-the_pointers,
}
use dlms_access_point.Console.Client.Safety.{Sound, say-Sound}
use dlms_access_point.Console.Client.Disconnect.{release_tcp, on_tcp_disconnect, confirm_over}

module _ {Engine Hdlc : Type 0} where
  settle-release_ip :
      (p : Pointers Engine Hdlc) (a : ℕ) → IsSound p → IsSound (settle (release_ip p a))
  unfolding settle release_ip
  settle-release_ip p a sound = rw (process_idle p.serial sound.serial_settled) (record {
    ip_settled = (process-release_socket p.ip a a).2;
    serial_settled = sound.serial_settled;
    engine_ready = tt;
    serial_ready = sound.serial_ready;
  })

  settle-release_serial :
      (p : Pointers Engine Hdlc) (a : ℕ) → IsSound p → IsSound (settle (release_serial p a))
  unfolding settle release_serial
  settle-release_serial p a sound = rw (process_idle p.ip sound.ip_settled) (record {
    ip_settled = sound.ip_settled;
    serial_settled = (process-release_socket p.serial a a).2;
    engine_ready = tt;
    serial_ready = tt;
  })

  alive_socket :
      (p : Pointers Engine Hdlc) (a : ℕ) (engine : Option (Handle Engine))
      → EngineReady p (some a) engine
      → is_alive p a ≡ true
  alive_socket p a none ready = elim ready [ ]
  alive_socket p a (some h) ready = ready.0

module _ (lib : Library) where
  open lib use {Engine, Hdlc}

  Safe-released :
      (p : Pointers Engine Hdlc) (line : Text) (s : Client lib)
      → IsSound (settle p)
      → Safe (Sound lib) ((set_pointers lib p >> say lib line) s)
  unfolding ◌>>=◌ set_pointers say
  Safe-released p line s sound = sound

  release_tcp-Sound :
      (socket : Option ℕ) (s : Client lib)
      → IsSound s.pointers
      → EngineReady s.pointers socket s.pointers.engine
      → Safe (Sound lib) (release_tcp lib socket s)
  unfolding release_tcp
  release_tcp-Sound none s sound ready = search (say-Sound lib)
  release_tcp-Sound (some a) s sound ready =
      Safe-touch lib _ a _ s (alive_socket s.pointers a s.pointers.engine ready)
        (search (Safe-net_do lib, Safe-the_pointers lib, Safe-released, settle-release_ip))

  pub on_tcp_disconnect-Sound :
      (s : Client lib) → IsSound s.pointers → Safe (Sound lib) (on_tcp_disconnect lib s)
  unfolding on_tcp_disconnect
  on_tcp_disconnect-Sound s sound =
      Safe-the_pointers lib _ _ s (release_tcp-Sound s.pointers.socket s sound sound.engine_ready)

  -- Where there is a serial socket.
  pub confirm_over-Sound :
      (a : ℕ) (s : Client lib)
      → IsSound s.pointers
      → holds s.pointers.serial.sockets a ≡ true
      → Safe (Sound lib) (confirm_over lib (some a) s)
  unfolding confirm_over
  confirm_over-Sound a s sound held =
      Safe-touch lib _ a _ s (ground arith)
        (search (Safe-net_do lib, Safe-the_pointers lib, Safe-released, settle-release_serial))
