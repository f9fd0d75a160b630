-- ===== src/Console/Client/Tests.antt =====
-- Runs of the client of src/Linux.cpp with a small library.
use dlms_access_point.Prelude.{
  ℕ, suc, Text, codes, ℤ, pos, ◌≡◌, refl, Option, none, some, [], ◌∷◌, List, ◌++◌, true, ◌+◌,
}
use dlms_access_point.Core.Registry
use dlms_access_point.Core.Registry.{create_socket, remove_if, process, Registry}
use dlms_access_point.Core.Registry.Laws.{holds}
use dlms_access_point.Console.Input.{
  answer, or_default, get_line, get_numeric_input, get_string_input,
}
use dlms_access_point.Console.Machine.{returned, ◌>>=◌, null_pointer, released_socket}
use dlms_access_point.Console.Pointers.{settle, in_use, Library, Pointers}
use dlms_access_point.Console.Client.{Client, the_pointers}
use dlms_access_point.Console.Client.Menu.{
  Life, going, ended, menu, confirmation, run, new, client_menu, choice_of, perform, cosem_release,
  hdlc_identify,
}
use dlms_access_point.Console.Number.{stoi, is_space, fit, read_digits}
use dlms_access_point.Console.Client.Submit.{requested, on_cosem_get-request}
use dlms_access_point.Console.Client.Requests.{on_cosem_get, on_cosem_release}
use dlms_access_point.Console.Client.Connect.{on_tcp_connect, on_hdlc_physical_connect}
use dlms_access_point.Console.Client.Invariant.{IsSound}
use dlms_access_point.Console.Client.Safety.Run.{run-new-IsSound, run-new-IsUnguarded, IsUnguarded}
use dlms_access_point.Console.Client.Safety.Faults.{identify_disconnected, HasEnded}

-- One more than every address in use.
above : List ℕ → ℕ
above [] = 0
above (x ∷ xs) = suc (x + above xs)

-- A network of the sockets that are open, where everything succeeds.
abbrev sample : Library
sample = record {
  Net = List ℕ;
  Engine = ℤ;
  Hdlc = ℤ;
  Oid = Text;
  allocate = λ n used. above used;
  tcp_engine = λ source a n. (n, source);
  serial_engine = λ source baud a n. (n, source);
  hdlc_engine = λ source baud a n. (n, source, source);
  open_socket = λ a name n. (a ∷ n, true);
  is_connected = λ a n. holds n a;
  close_socket = λ a n. remove_if a n;
  is_transport_connected = λ e n. true;
  is_open = λ e n. true;
  open_association = λ server password size e n. n;
  release = λ e n. (n, true);
  as_class_id = λ z. z;
  as_attribute_id = λ z. z;
  parse = λ t. some t;
  get = λ r e n. (n, some 7);
  set = λ r value e n. (n, some 8);
  action = λ r parameter e n. (n, some 9);
  identify = λ h n. n;
  connect = λ address h n. n;
  disconnect = λ h n. n;
  hdlc_is_connected = λ h n. true;
}

abbrev pointers_of : Life sample → Option (Pointers ℤ ℤ)
pointers_of (going s) = some s.pointers
pointers_of (ended who stop s) = none

-- Choice B with the defaults.
abbrev physical : Pointers ℤ ℤ
physical = record {
  ip = record { sockets = []; posted = [] };
  serial = record { sockets = 0 ∷ []; posted = [] };
  engine = some (record { target = pos 1; over = 0 });
  socket = some 0;
  serial_socket = some 0;
  hdlc = some (record { target = pos 1; over = 0 });
}

run-physical :
    pointers_of (run sample (new sample [] (codes "b" ∷ [] ∷ [] ∷ [] ∷ [])) (menu ∷ []))
    ≡ some physical
unfolding run new get_line perform choice_of on_hdlc_physical_connect ◌>>=◌ get_numeric_input
    get_string_input process answer or_default settle Registry.new create_socket above in_use
run-physical = refl

-- The menu has been shown, and the lines are read.
abbrev shown : List Text → List Text → Client sample
unfolding client_menu new
shown typed more =
    let s = client_menu sample (new sample [] typed) in
    record s { console = record { input = []; output = s.console.output ++ more } }

-- Choice A with the defaults.
abbrev tcp : Client sample
unfolding shown
tcp =
    record (shown (codes "A" ∷ [] ∷ [] ∷ []) (
      codes "Client Address (Default: 1): "
      ∷ codes "Destination TCP Address (Default: localhost): "
      ∷ [])) {
        net = 0 ∷ [];
        pointers = record {
          ip = record { sockets = 0 ∷ []; posted = [] };
          serial = record { sockets = []; posted = [] };
          engine = some (record { target = pos 1; over = 0 });
          socket = some 0;
          serial_socket = none;
          hdlc = none;
        };
      }

run-new-IsSound_example : IsSound tcp.pointers
unfolding run new get_line perform choice_of on_tcp_connect ◌>>=◌ get_numeric_input get_string_input
    process answer or_default settle Registry.new create_socket above in_use
run-new-IsSound_example = run-new-IsSound sample [] (codes "A" ∷ [] ∷ [] ∷ []) (menu ∷ []) tcp refl

run-new-IsUnguarded_example : IsUnguarded (some cosem_release)
unfolding run new get_line perform choice_of on_cosem_release ◌>>=◌ the_pointers
run-new-IsUnguarded_example =
    run-new-IsUnguarded sample [] (codes "5" ∷ []) (menu ∷ []) (some cosem_release) null_pointer
      (shown (codes "5" ∷ []) []) refl tt

-- After choice B, with choice C to come.
abbrev identifying : Client sample
identifying = record {
  net = 0 ∷ [];
  pointers = physical;
  get_token = none;
  set_token = none;
  action_token = none;
  console = record { input = codes "C" ∷ []; output = [] };
}

identify_disconnected_example :
    HasEnded sample
      (run sample identifying (confirmation ∷ menu ∷ []))
      (some hdlc_identify)
      released_socket
unfolding holds
identify_disconnected_example =
    identify_disconnected sample identifying (record { target = pos 1; over = 0 }) [] []
      (record {
        ip_settled = refl;
        serial_settled = refl;
        engine_ready = (refl, refl);
        serial_ready = refl;
      })
      refl refl refl refl

-- Choice 2 over the connection of choice A, with the default of the class.
abbrev asking : Client sample
asking = record tcp {
  console = record { input = [] ∷ codes "3" ∷ codes "0-0:1.0.0*255" ∷ []; output = [] };
}

on_cosem_get-request_example :
    let asked =
      requested sample (pos 1) (pos 3) (pos 1) (0 ∷ []) none (some (codes "0-0:1.0.0*255")) in
    (output : List Text) × (on_cosem_get sample asking
      ≡ returned tt (record asking {
        net = asked.0;
        get_token = asked.1;
        console = record { input = []; output = output };
      }))
unfolding answer stoi is_space fit read_digits or_default holds tcp
on_cosem_get-request_example =
    on_cosem_get-request sample [] (codes "3") (codes "0-0:1.0.0*255") [] (pos 1) (pos 3) 0
      (record { target = pos 1; over = 0 }) asking
      (record {
        socket = refl;
        engine = refl;
        socket_alive = refl;
        engine_alive = refl;
        connected = refl;
        is_open = refl;
      })
      refl refl refl
