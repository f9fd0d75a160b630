-- ===== src/Core/Socket/Tests.antt =====
-- Connections and transfers of concrete sockets.
use dlms_access_point.Prelude.{
  Option, ◌≡◌, refl, Text, codes, true, false, some, none, [], ◌∷◌, ℕ, zero, suc,
}
use dlms_access_point.Core.Io.{ErrorCode, no_error, bad_descriptor, successful}
use dlms_access_point.Core.Socket.{
  Options, Socket, async_resolve, async_write, async_read, close_socket, throws, accept_handler,
  open_socket, register_connect_handler, register_write_handler, register_read_handler,
  register_close_handler, write_data, read_async, close_now, is_connected,
}
use dlms_access_point.Core.Socket.Connect.{
  connection, attempted, heard, up_to_success, first_accepting, told, is_lost, has_thrown,
  connection-up_to_success,
}

-- Handlers and endpoints are numbers; endpoint 0 refuses.
abbrev client : Options
client = record { is_server = false; is_version4 = true; reuse_address = false }

abbrev outcome : ℕ → ErrorCode
outcome zero = bad_descriptor
outcome (suc n) = no_error

abbrev address : ℕ → Option Text
address n = some (n ∷ [])

abbrev idle : Socket ℕ ℕ
idle = record {
  options = client;
  is_open = true;
  read_buffer = codes "abcde";
  connect = none;
  write = some 5;
  read = some 6;
  close = some 7;
}

abbrev listening : Socket ℕ ℕ
listening = record idle { connect = some 4 }

connection-up_to_success_example :
    (attempted ℕ ℕ outcome address (connection ℕ ℕ outcome address listening (0 ∷ 8 ∷ 9 ∷ []))
      ≡ up_to_success ℕ ℕ outcome address (0 ∷ 8 ∷ 9 ∷ []))
    × (heard ℕ ℕ outcome address (connection ℕ ℕ outcome address listening (0 ∷ 8 ∷ 9 ∷ []))
        ≡ told ℕ ℕ outcome address 4 (first_accepting ℕ ℕ outcome address (0 ∷ 8 ∷ 9 ∷ [])))
    × (has_thrown ℕ ℕ outcome address (connection ℕ ℕ outcome address listening (0 ∷ 8 ∷ 9 ∷ []))
        ≡ is_lost ℕ ℕ outcome address (first_accepting ℕ ℕ outcome address (0 ∷ 8 ∷ 9 ∷ [])))
connection-up_to_success_example =
    connection-up_to_success ℕ ℕ outcome address listening 4 (0 ∷ 8 ∷ 9 ∷ []) refl

opened : open_socket ℕ ℕ idle (some (codes "::1")) 4059 false ≡ (
  record idle { is_open = false },
  close_socket ∷ async_resolve (codes "::1") 4059 ∷ [],
  successful,
)
unfolding open_socket
opened = refl

-- An error on accepting: the peer cannot be named.
refused : accept_handler ℕ ℕ listening bad_descriptor none ≡ throws ∷ []
unfolding accept_handler
refused = refl

registered :
    (register_connect_handler ℕ ℕ idle (some 4) ≡ (listening, none))
    × (register_write_handler ℕ ℕ idle none ≡ (record idle { write = none }, some 5))
    × (register_read_handler ℕ ℕ idle none ≡ (record idle { read = none }, some 6))
    × (register_close_handler ℕ ℕ idle none ≡ (record idle { close = none }, some 7))
unfolding register_connect_handler register_write_handler register_read_handler
    register_close_handler
registered = (refl, refl, refl, refl)

-- An asynchronous write with nobody to hear of its end is not started.
written :
    (write_data ℕ ℕ idle (codes "a") true no_error ≡ (async_write (codes "a") ∷ [], successful))
    × (write_data ℕ ℕ (record idle { write = none }) (codes "a") true no_error ≡ ([], successful))
    × (read_async ℕ ℕ idle 0 ≡ (async_read 1 ∷ [], successful))
unfolding write_data read_async
written = (refl, refl, refl)

closed_now : is_connected ℕ ℕ (close_now ℕ ℕ idle).0 ≡ false
unfolding close_now is_connected
closed_now = refl
