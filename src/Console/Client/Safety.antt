-- ===== src/Console/Client/Safety.antt =====
-- What choices A, B and E of src/Linux.cpp leave of a client's pointers.
pub mod Requests
pub mod Disconnect
pub mod Leaves
pub mod Run
pub mod Faults
use dlms_access_point.Prelude.{
  ◌∷◌, arith, ℤ, ℕ, Bool, true, false, if◌then◌else◌, some, Text, ◌≡◌, refl, Option, none,
}
use dlms_access_point.Core.Registry.{create_socket}
use dlms_access_point.Core.Registry.Laws.{holds, process_idle}
use dlms_access_point.Console.Machine.{pure, Safe, M, ◌>>=◌}
use dlms_access_point.Console.Pointers.{Library, Pointers, settle, Handle, is_alive}
use dlms_access_point.Console.Client.{net_do, Client, say}
use dlms_access_point.Console.Input.{Console}
use dlms_access_point.Console.Client.Invariant.{
  Safe-branch, Safe-pure, EngineReady, IsSound, Safe-assoc, Safe-number, Safe-text, Safe-net_op,
  Safe-say,
}
use dlms_access_point.Console.Client.Connect.{
  use_socket, on_hdlc_physical_connect, serial_questions, on_serial_wrapper_connect, new_hdlc,
  on_tcp_connect, new_tcp, new_serial,
}

module _ {Engine Hdlc : Type 0} where
  settle_idle : (p : Pointers Engine Hdlc) → IsSound p → settle p ≡ p
  unfolding settle
  settle_idle p sound =
      rw (process_idle p.ip sound.ip_settled, process_idle p.serial sound.serial_settled) refl

  pub settle-IsSound : (p : Pointers Engine Hdlc) → IsSound p → IsSound (settle p)
  settle-IsSound p sound = rw (settle_idle p sound) sound

  -- A new engine over a socket that is there, with no socket lost.
  engine_replaced :
      (p p' : Pointers Engine Hdlc) (socket : Option ℕ) (engine : Option (Handle Engine))
      (h : Handle Engine)
      → ((j : ℕ) → is_alive p j ≡ true → is_alive p' j ≡ true)
      → is_alive p' h.over ≡ true
      → EngineReady p socket engine
      → EngineReady p' socket (some h)
  engine_replaced p p' none engine h kept alive ready = tt
  engine_replaced p p' (some a) none h kept alive ready = elim ready [ ]
  engine_replaced p p' (some a) (some _) h kept alive ready = (kept a ready.0, alive)

  -- The pointers with an engine over a new serial socket.
  abbrev with_serial :
      Pointers Engine Hdlc → ℕ → Engine → Option (Handle Hdlc) → Pointers Engine Hdlc
  with_serial p a engine hdlc = record p {
    serial = record { sockets = a ∷ p.serial.sockets; posted = p.serial.posted };
    engine = some (record { target = engine; over = a });
    hdlc = hdlc;
    serial_socket = some a;
  }

  with_serial-IsSound :
      (p : Pointers Engine Hdlc) (a : ℕ) (engine : Engine) (hdlc : Option (Handle Hdlc))
      → IsSound p
      → IsSound (with_serial p a engine hdlc)
        × IsSound (record (with_serial p a engine hdlc) { socket = some a })
  unfolding holds
  with_serial-IsSound p a engine hdlc sound = (
    record {
      ip_settled = sound.ip_settled;
      serial_settled = sound.serial_settled;
      engine_ready =
          engine_replaced p (with_serial p a engine hdlc) _ _ _ (λ j e. ground arith) (ground arith)
            sound.engine_ready;
      serial_ready = ground arith;
    },
    record {
      ip_settled = sound.ip_settled;
      serial_settled = sound.serial_settled;
      engine_ready = (ground arith, ground arith);
      serial_ready = ground arith;
    },
  )

module _ (lib : Library) where
  -- What a handler leaves, after its tasks have run.
  abbrev pub Sound : Unit {0} → Client lib → Type 0
  Sound u s = IsSound (settle s.pointers)

  pub say-Sound : (line : Text) (s : Client lib) → IsSound s.pointers → Safe Sound (say lib line s)
  unfolding say
  say-Sound line s sound = settle-IsSound s.pointers sound

  pub net_do-Sound :
      (f : lib.Net → lib.Net) (s : Client lib) → IsSound s.pointers → Safe Sound (net_do lib f s)
  unfolding net_do
  net_do-Sound f s sound = settle-IsSound s.pointers sound

  opened-Sound :
      (opened : Bool) (line : Text) (s : Client lib)
      → IsSound s.pointers
      → Safe Sound ((if opened then pure tt else say lib line) s)
  opened-Sound true line s sound = settle-IsSound s.pointers sound
  opened-Sound false line s sound = say-Sound line s sound

  new_tcp-Sound :
      (source : ℤ) (k : ℕ → M (Client lib) (Unit {0})) (s : Client lib)
      → IsSound s.pointers
      → ((a : ℕ) (s' : Client lib) → IsSound s'.pointers → Safe Sound (k a s'))
      → Safe Sound ((new_tcp lib source >>= k) s)
  unfolding new_tcp ◌>>=◌ create_socket holds
  new_tcp-Sound source k s sound safe = safe _ _ (record {
    ip_settled = sound.ip_settled;
    serial_settled = sound.serial_settled;
    engine_ready = (ground arith, ground arith);
    serial_ready = sound.serial_ready;
  })

  new_serial-Sound :
      (source baud : ℤ) (k : ℕ → M (Client lib) (Unit {0})) (s : Client lib)
      → IsSound s.pointers
      → ((a : ℕ) (s' : Client lib)
          → IsSound s'.pointers
          → IsSound (record s'.pointers { socket = some a })
          → Safe Sound (k a s'))
      → Safe Sound ((new_serial lib source baud >>= k) s)
  unfolding new_serial ◌>>=◌ create_socket
  new_serial-Sound source baud k s sound safe =
      let (made, used) = with_serial-IsSound s.pointers _ _ _ sound in safe _ _ made used

  new_hdlc-Sound :
      (source baud : ℤ) (k : ℕ → M (Client lib) (Unit {0})) (s : Client lib)
      → IsSound s.pointers
      → ((a : ℕ) (s' : Client lib)
          → IsSound s'.pointers
          → IsSound (record s'.pointers { socket = some a })
          → Safe Sound (k a s'))
      → Safe Sound ((new_hdlc lib source baud >>= k) s)
  unfolding new_hdlc ◌>>=◌ create_socket
  new_hdlc-Sound source baud k s sound safe =
      let (made, used) = with_serial-IsSound s.pointers _ _ _ sound in safe _ _ made used

  use_socket-Sound :
      (a : ℕ) (s : Client lib)
      → IsSound (record s.pointers { socket = some a })
      → Safe Sound (use_socket lib a s)
  unfolding use_socket
  use_socket-Sound a s sound = settle-IsSound _ sound

  Safe-if :
      (b : Bool) (m n : M (Client lib) (Unit {0})) (s : Client lib)
      → Safe Sound (m s)
      → Safe Sound (n s)
      → Safe Sound ((if b then m else n) s)
  Safe-if true m n s first second = first
  Safe-if false m n s first second = second

  on_tcp_connect-Sound : (s : Client lib) → IsSound s.pointers → Safe Sound (on_tcp_connect lib s)
  unfolding on_tcp_connect
  on_tcp_connect-Sound s sound =
      search (Safe-number lib, Safe-text lib, new_tcp-Sound, Safe-net_op lib, opened-Sound)

  Safe-serial_questions :
      (k : ℤ × Text × ℤ → M (Client lib) (Unit {0})) (s : Client lib)
      → ((source : ℤ) (port : Text) (baud : ℤ) (c : Console)
          → Safe Sound (k (source, port, baud) (record s { console = c })))
      → Safe Sound ((serial_questions lib >>= k) s)
  unfolding serial_questions
  Safe-serial_questions k s safe =
      search (Safe-assoc lib, Safe-say lib, Safe-number lib, Safe-text lib, Safe-pure lib) depth 14

  on_hdlc_physical_connect-Sound :
      (s : Client lib) → IsSound s.pointers → Safe Sound (on_hdlc_physical_connect lib s)
  unfolding on_hdlc_physical_connect
  on_hdlc_physical_connect-Sound s sound =
      search (
        Safe-serial_questions,
        new_hdlc-Sound,
        Safe-net_op lib,
        Safe-if,
        use_socket-Sound,
        say-Sound,
      )

  on_serial_wrapper_connect-Sound :
      (s : Client lib) → IsSound s.pointers → Safe Sound (on_serial_wrapper_connect lib s)
  unfolding on_serial_wrapper_connect
  on_serial_wrapper_connect-Sound s sound =
      search
        (
          Safe-serial_questions,
          new_serial-Sound,
          Safe-net_op lib,
          Safe-branch lib,
          Safe-pure lib,
          Safe-say lib,
          use_socket-Sound,
        )
        depth 7
