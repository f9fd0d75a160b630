-- ===== src/Console/Client/Connect.antt =====
-- ClientMenu_Handler of src/Linux.cpp, choices A to E: the connections below the association.
use dlms_access_point.Prelude.{
  ℕ, if◌then◌else◌, Text, codes, ℤ, Option, none, some, pos, Bool, false,
}
use dlms_access_point.Core.Registry.{create_socket}
use dlms_access_point.Console.Machine.{returned, M, ◌>>=◌, ◌>>◌, pure}
use dlms_access_point.Console.Pointers.{Library, Handle, in_use}
use dlms_access_point.Console.Client.{
  Client, number, text, say, net_op, net_do, the_net, the_pointers, guarded, touch, through,
}

module _ (lib : Library) where
  open lib use {Net, Engine, Hdlc, Oid}

  -- What `new` and CreateSocket make; then Open.
  unfoldable pub new_tcp : ℤ → M (Client lib) ℕ
  new_tcp source s =
      let p = s.pointers in
      let (ip, a) = create_socket p.ip (lib.allocate s.net (in_use p)) in
      let (n, engine) = lib.tcp_engine source a s.net in
      returned a (record s {
        net = n;
        pointers = record p {
          ip = ip;
          engine = some (record { target = engine; over = a });
          socket = some a;
        };
      })

  unfoldable pub new_hdlc : ℤ → ℤ → M (Client lib) ℕ
  new_hdlc source baud s =
      let p = s.pointers in
      let (serial, a) = create_socket p.serial (lib.allocate s.net (in_use p)) in
      let (n, hdlc, engine) = lib.hdlc_engine source baud a s.net in
      returned a (record s {
        net = n;
        pointers = record p {
          serial = serial;
          engine = some (record { target = engine; over = a });
          hdlc = some (record { target = hdlc; over = a });
          serial_socket = some a;
        };
      })

  unfoldable pub new_serial : ℤ → ℤ → M (Client lib) ℕ
  new_serial source baud s =
      let p = s.pointers in
      let (serial, a) = create_socket p.serial (lib.allocate s.net (in_use p)) in
      let (n, engine) = lib.serial_engine source baud a s.net in
      returned a (record s {
        net = n;
        pointers = record p {
          serial = serial;
          engine = some (record { target = engine; over = a });
          serial_socket = some a;
        };
      })

  unfoldable pub on_tcp_connect : M (Client lib) (Unit {0})
  unfolding number text new_tcp net_op say
  on_tcp_connect = do
    source ← number lib (codes "Client Address (Default: 1)") (pos 1)
    address ← text lib (codes "Destination TCP Address (Default: localhost)") (codes "localhost")
    a ← new_tcp source
    opened ← net_op lib (lib.open_socket a address)
    if opened then pure tt else say lib (codes "Failed to initiate connect\n")

  -- The questions about a serial port.
  unfoldable pub serial_questions : M (Client lib) (ℤ × Text × ℤ)
  unfolding number text say
  serial_questions = do
    source ← number lib (codes "Client Address (Default: 1)") (pos 1)
    port ← text lib (codes "Serial Port (Default: /tmp/ttyS11)") (codes "/tmp/ttyS11")
    say lib (codes "Initial Baud Rate Selection\n")
    say lib (codes "\t6  - 9600\n")
    say lib (codes "\t10 - 115200\n")
    baud ← number lib (codes "(Default: 6 - 9600)") (pos 6)
    pure (source, port, baud)

  unfoldable pub use_socket : ℕ → M (Client lib) (Unit {0})
  use_socket a s = returned tt (record s { pointers = record s.pointers { socket = some a } })

  unfoldable pub on_hdlc_physical_connect : M (Client lib) (Unit {0})
  unfolding serial_questions new_hdlc net_op say use_socket
  on_hdlc_physical_connect = do
    (source, port, baud) ← serial_questions
    a ← new_hdlc source baud
    opened ← net_op lib (lib.open_socket a port)
    if opened then use_socket a else say lib (codes "Failed to initiate connect\n")

  unfoldable pub on_serial_wrapper_connect : M (Client lib) (Unit {0})
  unfolding serial_questions new_serial net_op say use_socket
  on_serial_wrapper_connect = do
    (source, port, baud) ← serial_questions
    a ← new_serial source baud
    opened ← net_op lib (lib.open_socket a port)
    if opened then pure tt else say lib (codes "Failed to initiate connect\n")
    use_socket a

  unfoldable pub identify_over : Option (Handle Hdlc) → M (Client lib) (Unit {0})
  unfolding through net_do say
  identify_over none = say lib (codes "Physical Connection Not Established Yet!\n")
  identify_over (some h) = do hdlc ← through lib (some h); net_do lib (lib.identify hdlc)

  unfoldable pub on_hdlc_identify : M (Client lib) (Unit {0})
  unfolding identify_over the_pointers
  on_hdlc_identify = do p ← the_pointers lib; identify_over p.hdlc

  -- `m_pSerialSocket && m_pHDLC && m_pSerialSocket->IsConnected()`.
  unfoldable pub is_physical : Option ℕ → Option (Handle Hdlc) → M (Client lib) Bool
  unfolding touch the_net
  is_physical none hdlc = pure false
  is_physical (some a) none = pure false
  is_physical (some a) (some h) = do touch lib a; n ← the_net lib; pure (lib.is_connected a n)

  unfoldable pub on_hdlc_datalink_connect : M (Client lib) (Unit {0})
  unfolding guarded is_physical the_pointers number through net_do say
  on_hdlc_datalink_connect = do
    p ← the_pointers lib
    ready ← is_physical p.serial_socket p.hdlc
    guarded lib ready (codes "Physical Connection Not Established Yet!\n") (do
      destination ← number lib (codes "Destination Address (Default: 1)") (pos 1)
      hdlc ← through lib p.hdlc
      net_do lib (lib.connect destination hdlc))
