-- ===== src/Console/Client/Menu.antt =====
-- ClientMenu_Handler of src/Linux.cpp: which handler a line selects.
use dlms_access_point.Prelude.{
  ℕ, ◌==◌, leb, if◌then◌else◌, Text, codes, text_eq, ◌-◌, ◌&&◌, [], ◌∷◌, Option, none, some, List,
  ◌++◌,
}
use dlms_access_point.Core.Registry
use dlms_access_point.Console.Input.{get_line, Console}
use dlms_access_point.Console.Pointers.{settle, Library}
use dlms_access_point.Console.Client.Disconnect.{
  disconnect_confirm, on_tcp_disconnect, on_hdlc_disconnect,
}
use dlms_access_point.Console.Machine.{Outcome, Stop, end_of_input, returned, stopped, M, exited}
use dlms_access_point.Console.Client.{Client}
use dlms_access_point.Console.Client.Connect.{
  on_tcp_connect, on_hdlc_physical_connect, on_serial_wrapper_connect, on_hdlc_identify,
  on_hdlc_datalink_connect,
}
use dlms_access_point.Console.Client.Requests.{
  on_cosem_open, on_cosem_get, on_cosem_set, on_cosem_action, on_cosem_release,
}

-- What a line selects.
pub data Choice : Type 0 where
  exit_application tcp_connect hdlc_physical_connect hdlc_identify hdlc_datalink_connect : Choice
  serial_wrapper_connect cosem_open cosem_get cosem_set cosem_action cosem_release : Choice
  tcp_disconnect hdlc_disconnect nothing : Choice

-- The first character, `\0` for an empty line, by `toupper` in the C locale.
unfoldable pub initial : Text → ℕ
initial [] = 0
initial (c ∷ s) = if leb b'a' c && leb c b'z' then c - 32 else c

-- The chain of tests in ClientMenu_Handler.
unfoldable pub choice_of : Text → Choice
unfolding initial
choice_of line =
    if text_eq line (codes "0")
    then exit_application
    else if initial line == b'A'
    then tcp_connect
    else if initial line == b'B'
    then hdlc_physical_connect
    else if initial line == b'C'
    then hdlc_identify
    else if initial line == b'D'
    then hdlc_datalink_connect
    else if initial line == b'E'
    then serial_wrapper_connect
    else if text_eq line (codes "1")
    then cosem_open
    else if text_eq line (codes "2")
    then cosem_get
    else if text_eq line (codes "3")
    then cosem_set
    else if text_eq line (codes "4")
    then cosem_action
    else if text_eq line (codes "5")
    then cosem_release
    else if initial line == b'T'
    then tcp_disconnect
    else if initial line == b'U'
    then hdlc_disconnect
    else nothing

module _ (lib : Library) where
  open lib use {Net, Engine, Hdlc, Oid}

  -- ClientMenu_Handler, but for the menu that it posts.
  unfoldable pub perform : Choice → M (Client lib) (Unit {0})
  perform exit_application s = stopped exited s
  perform tcp_connect s = on_tcp_connect lib s
  perform hdlc_physical_connect s = on_hdlc_physical_connect lib s
  perform hdlc_identify s = on_hdlc_identify lib s
  perform hdlc_datalink_connect s = on_hdlc_datalink_connect lib s
  perform serial_wrapper_connect s = on_serial_wrapper_connect lib s
  perform cosem_open s = on_cosem_open lib s
  perform cosem_get s = on_cosem_get lib s
  perform cosem_set s = on_cosem_set lib s
  perform cosem_action s = on_cosem_action lib s
  perform cosem_release s = on_cosem_release lib s
  perform tcp_disconnect s = on_tcp_disconnect lib s
  perform hdlc_disconnect s = on_hdlc_disconnect lib s
  perform nothing s = returned tt s

  -- ClientMenu.
  unfoldable pub client_menu : Client lib → Client lib
  client_menu s = record s {
    console = record s.console {
      output =
          s.console.output
          ++ (codes "\nClient Menu:\n\n"
              ∷ codes "\t0 - Exit Application\n"
              ∷ codes "\tA - TCP Connect\n"
              ∷ codes "\tB - HDLC Physical Connect\n"
              ∷ codes "\tC - HDLC Identify\n"
              ∷ codes "\tD - HDLC Datalink Connect\n"
              ∷ codes "\tE - Serial Wrapper Connect\n"
              ∷ codes "\n"
              ∷ codes "\t1 - COSEM Open\n"
              ∷ codes "\t2 - COSEM Get\n"
              ∷ codes "\t3 - COSEM Set\n"
              ∷ codes "\t4 - COSEM Action\n"
              ∷ codes "\t5 - COSEM Release\n"
              ∷ codes "\n"
              ∷ codes "\tT - TCP Disconnect\n"
              ∷ codes "\tU - HDLC Disconnect\n"
              ∷ codes "\tV - Serial Wrapper Disconnect\n"
              ∷ codes "\nSelect: "
              ∷ []);
    };
  }

  -- What the event loop runs: the menu with the handler of the line behind it, the confirmation of
  -- the HDLC layer, and what changes the network alone.
  pub data Event : Type 0 where
    menu confirmation : Event
    network : Net → Event

  -- A program that goes on, or that has stopped in the handler of a choice (`none` for the others).
  pub data Life : Type 0 where
    going : Client lib → Life
    ended : Option Choice → Stop → Client lib → Life

  -- What the handler has posted runs before the next event.
  unfoldable pub after : Option Choice → Outcome (Client lib) (Unit {0}) → Life
  after who (returned _ s) = going (record s { pointers = settle s.pointers })
  after who (stopped stop s) = ended who stop s

  -- ReadLine_Handler: at the end of the input no menu follows, which is taken for the end of the run.
  unfoldable pub chosen : Client lib → Option (Text × Console) → Life
  unfolding after
  chosen s none = ended none end_of_input s
  chosen s (some (line, c)) =
      after (some (choice_of line)) (perform (choice_of line) (record s { console = c }))

  unfoldable pub step : Client lib → Event → Life
  unfolding chosen after client_menu
  step s menu = let shown = client_menu s in chosen shown (get_line shown.console)
  step s confirmation = after none (disconnect_confirm lib s)
  step s (network n) = going (record s { net = n })

  unfoldable pub run : Client lib → List Event → Life
  unfolding step
  run s [] = going s
  run s (e ∷ es) = elim (step s e) [ going s' ↦ run s' es | ended who stop s' ↦ ended who stop s' ]

  -- A client that has just been constructed.
  unfoldable pub new : Net → List Text → Client lib
  new net input = record {
    net = net;
    pointers = record {
      ip = Registry.new;
      serial = Registry.new;
      engine = none;
      socket = none;
      serial_socket = none;
      hdlc = none;
    };
    get_token = none;
    set_token = none;
    action_token = none;
    console = record { input = input; output = [] };
  }
