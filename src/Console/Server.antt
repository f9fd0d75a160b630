-- ===== src/Console/Server.antt =====
-- Class ServerApp of src/Linux.cpp.
pub mod Laws
mod Tests
use dlms_access_point.Prelude.{
  ℕ, if◌then◌else◌, Text, codes, text_eq, ℤ, pos, Option, none, some, Bool, [], ◌∷◌, List, ◌++◌,
}
use dlms_access_point.Core.Registry
use dlms_access_point.Core.Registry.{Registry, create_socket}
use dlms_access_point.Console.Input.{
  Console, print_line, get_line, get_numeric_input, get_string_input,
}
use dlms_access_point.Console.Machine.{exited, end_of_input, returned, stopped, M, ◌>>=◌, ◌>>◌}
use dlms_access_point.Console.Pointers.{Handle}

-- The server engine, over a new TCP socket, over the HDLC layer with an address and a baud rate, and
-- over the serial wrapper with a baud rate; and ISocket::Open, with a port's name if it has one.
pub record Library : Type 1 where
  pub Net : Type 0
  pub Engine : Type 0
  pub allocate : Net → List ℕ → ℕ
  pub tcp_engine : ℕ → Net → Net × Engine
  pub hdlc_engine : ℤ → ℤ → ℕ → Net → Net × Engine
  pub serial_engine : ℤ → ℕ → Net → Net × Engine
  pub open_socket : ℕ → Option Text → Net → Net × Bool

-- What a line selects.
pub data Choice : Type 0 where
  exit_application tcp_server hdlc_server serial_wrapper_server nothing : Choice

unfoldable pub choice_of : Text → Choice
choice_of line =
    if text_eq line (codes "0")
    then exit_application
    else if text_eq line (codes "1")
    then tcp_server
    else if text_eq line (codes "2")
    then hdlc_server
    else if text_eq line (codes "3")
    then serial_wrapper_server
    else nothing

module _ (lib : Library) where
  open lib use {Net, Engine}

  pub record Server : Type 0 where
    pub net : Net
    pub ip : Registry
    pub serial : Registry
    pub engine : Option (Handle Engine)
    pub console : Console

  console_op : {A : Type 0} → (Console → Option (A × Console)) → M Server A
  console_op f s = elim (f s.console) [
    | none ↦ stopped end_of_input s
    | some (a, c) ↦ returned a (record s { console = c })
  ]

  say : Text → M Server (Unit {0})
  say line s = returned tt (record s { console = print_line line s.console })

  -- Open, and what is printed where it fails.
  open_or_say : ℕ → Option Text → Text → M Server (Unit {0})
  unfolding say
  open_or_say a port message s =
      let (n, opened) = lib.open_socket a port s.net in
      if opened then returned tt (record s { net = n }) else say message (record s { net = n })

  in_use : Server → List ℕ
  in_use s = s.ip.sockets ++ s.serial.sockets

  new_tcp : M Server ℕ
  unfolding in_use
  new_tcp s =
      let (ip, a) = create_socket s.ip (lib.allocate s.net (in_use s)) in
      let (n, engine) = lib.tcp_engine a s.net in
      returned a
        (record s { net = n; ip = ip; engine = some (record { target = engine; over = a }) })

  -- A new serial socket, and the engine that a constructor makes over it.
  new_serial : (ℕ → Net → Net × Engine) → M Server ℕ
  unfolding in_use
  new_serial construct s =
      let (serial, a) = create_socket s.serial (lib.allocate s.net (in_use s)) in
      let (n, engine) = construct a s.net in
      returned a (record s {
        net = n;
        serial = serial;
        engine = some (record { target = engine; over = a });
      })

  on_tcp_server : M Server (Unit {0})
  unfolding say new_tcp open_or_say
  on_tcp_server = do
    say (codes "\nTCP Server Mode - Listening on Port 4059\n")
    a ← new_tcp
    open_or_say a none (codes "Failed to initiate listen\n")

  baud_rate : M Server ℤ
  unfolding say console_op
  baud_rate = do
    say (codes "Initial Baud Rate Selection\n")
    say (codes "\t6  - 9600\n")
    say (codes "\t10 - 115200\n")
    console_op (get_numeric_input (codes "(Default: 6 - 9600)") (pos 6))

  on_hdlc_server : M Server (Unit {0})
  unfolding say console_op baud_rate new_serial open_or_say
  on_hdlc_server = do
    address ← console_op (get_numeric_input (codes "Server Address (Default: 1)") (pos 1))
    port ←
        console_op
          (get_string_input (codes "Serial Port (Default: /tmp/ttyS10)") (codes "/tmp/ttyS10"))
    baud ← baud_rate
    say (codes "\nHDLC Server Mode - Listening on " ++ (port ++ codes "\n"))
    a ← new_serial (lib.hdlc_engine address baud)
    open_or_say a (some port) (codes "Failed to initiate connect\n")

  on_serial_wrapper_server : M Server (Unit {0})
  unfolding say console_op baud_rate new_serial open_or_say
  on_serial_wrapper_server = do
    port ←
        console_op
          (get_string_input (codes "Serial Port (Default: /tmp/ttyS10)") (codes "/tmp/ttyS10"))
    baud ← baud_rate
    say (codes "\nSerial Wrapper Server Mode - Listening on " ++ (port ++ codes "\n"))
    a ← new_serial (lib.serial_engine baud)
    open_or_say a (some port) (codes "Failed to initiate connect\n")

  -- ServerMenu_Handler, but for the menu that it posts.
  perform : Choice → M Server (Unit {0})
  perform exit_application s = stopped exited s
  perform tcp_server s = on_tcp_server s
  perform hdlc_server s = on_hdlc_server s
  perform serial_wrapper_server s = on_serial_wrapper_server s
  perform nothing s = returned tt s

  -- ServerMenu, with ReadLine.
  server_menu : M Server Text
  unfolding say console_op
  server_menu = do
    say (codes "\nServer Menu:\n\n")
    say (codes "\t0 - Exit Application\n")
    say (codes "\t1 - TCP Server\n")
    say (codes "\t2 - HDLC Server\n")
    say (codes "\t3 - Serial Wrapper Server\n\n")
    say (codes "Select: ")
    console_op get_line

  pub step : M Server (Unit {0})
  unfolding server_menu perform
  step = do line ← server_menu; perform (choice_of line)

  -- The menu with the handler of the line behind it, as often as the fuel says, each round with the
  -- network as the events before it have left it.
  pub run : List Net → M Server (Unit {0})
  unfolding step
  run [] s = returned tt s
  run (n ∷ ns) s = (step >> run ns) (record s { net = n })

  unfoldable pub new : Net → List Text → Server
  new net input = record {
    net = net;
    ip = Registry.new;
    serial = Registry.new;
    engine = none;
    console = record { input = input; output = [] };
  }
