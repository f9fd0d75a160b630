-- ===== src/Core/Serial/Tests.antt =====
-- Port settings and reads of a concrete port.
use dlms_access_point.Prelude.{ℕ, ◌≡◌, refl, codes, true, some, none, [], ◌∷◌, false}
use dlms_access_point.Core.Io.{operation_aborted, no_error, successful, failed}
use dlms_access_point.Core.Serial.{
  Options, Serial, closes, no_parity, two, both, PortSettings, configure, flush_queue, async_read,
  set_timer, cancel_port, close_port, read_timeout, open_port, register_connect_handler,
  register_write_handler, register_read_handler, register_close_handler, write_data, read_async,
  close_now, is_connected, flush, set_options,
}

abbrev slow : Options
slow = record { baud_rate = 0; character_size = 8; parity = 1; stop_bits = 0 }

abbrev usual : Options
usual = record { baud_rate = 10; character_size = 8; parity = 0; stop_bits = 2 }

abbrev port : Serial ℕ
port = record {
  options = usual;
  is_open = true;
  read_buffer = [];
  connect = none;
  write = none;
  read = some 6;
  close = some 7;
}

abbrev port_settings : PortSettings
port_settings = record { rate = 115200; size = 8; parity_bit = no_parity; stops = two }

opened :
    (open_port ℕ port port_settings false
      ≡ (port, configure port_settings ∷ flush_queue both ∷ [], successful))
    × (open_port ℕ port port_settings true ≡ (port, [], failed))
unfolding open_port
opened = (refl, refl)

registered :
    (register_connect_handler ℕ port (some 4) ≡ (record port { connect = some 4 }, none))
    × (register_write_handler ℕ port (some 5) ≡ (record port { write = some 5 }, none))
    × (register_read_handler ℕ port none ≡ (record port { read = none }, some 6))
    × (register_close_handler ℕ port none ≡ (record port { close = none }, some 7))
unfolding register_connect_handler register_write_handler register_read_handler
    register_close_handler
registered = (refl, refl, refl, refl)

transferred :
    (write_data ℕ port (codes "a") true no_error ≡ ([], successful))
    × (read_async ℕ port 0 20 ≡ (async_read 1 ∷ set_timer 20 ∷ [], successful))
    × (read_timeout ℕ no_error ≡ cancel_port ∷ [])
    × (read_timeout ℕ operation_aborted ≡ [])
unfolding write_data read_async read_timeout
transferred = (refl, refl, refl, refl)

closed_now :
    (is_connected ℕ (close_now ℕ port).0 ≡ false)
    × ((close_now ℕ port).1 ≡ cancel_port ∷ close_port ∷ closes 7 successful ∷ [])
unfolding close_now is_connected
closed_now = (refl, refl)

flushed : flush ℕ 2 ≡ some (flush_queue both ∷ [], successful)
unfolding flush
flushed = refl

configured : set_options ℕ port slow ≡ (record port { options = slow }, successful)
unfolding set_options
configured = refl
