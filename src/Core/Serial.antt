-- ===== src/Core/Serial.antt =====
-- src/core/LinuxSerial.{h,cpp}, class LinuxSerialSocket. An operation returns the calls that it
-- makes, in their order: of asio, of the terminal and of the registered handlers. What asio answers
-- is an argument. Traces are left out.
pub mod Laws
mod Tests
use dlms_access_point.Prelude.{
  ℕ, leb, ◌==◌, if◌then◌else◌, length, get_elem?, take, drop, Text, Bool, true, false, not, ◌||◌,
  Option, none, some, List, [], ◌∷◌, ◌++◌,
}
use dlms_access_point.Core.Io.{
  ErrorCode, Status, successful, failed, timeout, is_error, is_eof, is_connection_reset,
  is_operation_aborted, is_bad_descriptor,
}

-- `ISerial::Options`: indices into the tables of `set_port_options`, but for the character size.
pub record Options : Type 0 where
  pub baud_rate : ℕ
  pub character_size : ℕ
  pub parity : ℕ
  pub stop_bits : ℕ

pub data Parity : Type 0 where
  no_parity even odd : Parity

pub data StopBits : Type 0 where
  one one_point_five two : StopBits

-- `FLUSHES`, and `ISerialSocket::FlushDirection` as the index into it.
pub data Queue : Type 0 where
  input output both : Queue

abbrev flushes : List Queue
flushes = input ∷ output ∷ both ∷ []

abbrev pub bauds : List ℕ
bauds =
    300 ∷ 600 ∷ 1200 ∷ 1800 ∷ 2400 ∷ 4800 ∷ 9600 ∷ 19200 ∷ 38400 ∷ 57600 ∷ 115200 ∷ 230400 ∷ 460800
    ∷ 500000 ∷ 576000 ∷ 921600 ∷ 1152000 ∷ 1500000 ∷ 2000000 ∷ 2500000 ∷ 3000000 ∷ 3500000 ∷ 4000000
    ∷ []

abbrev pub parities : List Parity
parities = no_parity ∷ even ∷ odd ∷ []

abbrev pub stop_bits_table : List StopBits
stop_bits_table = one ∷ one_point_five ∷ two ∷ []

-- What the port is set to.
pub record PortSettings : Type 0 where
  pub rate : ℕ
  pub size : ℕ
  pub parity_bit : Parity
  pub stops : StopBits

module _ (Handler : Type 0) where
  pub data Call : Type 0 where
    connects : Handler → Status → Call
    writes reads : Handler → Status → ℕ → Call
    closes : Handler → Status → Call
    configure : PortSettings → Call
    flush_queue : Queue → Call
    async_write write_all : Text → Call
    async_read : ℕ → Call
    set_timer : ℕ → Call
    cancel_timer cancel_port close_port : Call

  pub record Serial : Type 0 where
    pub options : Options
    pub is_open : Bool
    pub read_buffer : Text
    pub connect : Option Handler
    pub write : Option Handler
    pub read : Option Handler
    pub close : Option Handler

  on_close : Serial → Status → List Call
  on_close s status = elim s.close [ none ↦ [] | some handler ↦ closes handler status ∷ [] ]

  pub write_handler : Serial → ErrorCode → ℕ → List Call
  unfolding is_eof is_connection_reset is_operation_aborted is_error on_close
  write_handler s error bytes_transferred =
      if is_eof error || is_connection_reset error || is_operation_aborted error
      then on_close s successful
      else elim s.write [
        | none ↦ []
        | some handler ↦
            writes handler (if is_error error || not s.is_open then failed else successful)
              bytes_transferred
            ∷ []
      ]

  -- The status that the read handler hears.
  pub read_status : ErrorCode → Status
  unfolding is_operation_aborted is_error
  read_status error =
      if is_operation_aborted error then timeout else if is_error error then failed else successful

  pub read_handler : Serial → ErrorCode → ℕ → List Call
  unfolding is_bad_descriptor is_eof is_connection_reset on_close read_status
  read_handler s error bytes_transferred =
      if is_bad_descriptor error
      then []
      else if is_connection_reset error || is_eof error
      then cancel_timer ∷ on_close s successful
      else elim s.read [
        | none ↦ cancel_timer ∷ []
        | some handler ↦ cancel_timer ∷ reads handler (read_status error) bytes_transferred ∷ []
      ]

  read_timeout : ErrorCode → List Call
  unfolding is_operation_aborted
  read_timeout error = if is_operation_aborted error then [] else cancel_port ∷ []

  -- The four tables. An index beyond a table is undefined behaviour: `none`.
  pub set_port_options : Options → Option PortSettings
  set_port_options o = elim (get_elem? bauds o.baud_rate) [
    | none ↦ none
    | some rate ↦ elim (get_elem? parities o.parity) [
      | none ↦ none
      | some parity ↦ elim (get_elem? stop_bits_table o.stop_bits) [
        | none ↦ none
        | some stops ↦
            some
              (record { rate = rate; size = o.character_size; parity_bit = parity; stops = stops })
      ]
    ]
  ]

  -- `refused` says that opening or setting the port throws, which is caught; `settings` is what
  -- `set_port_options` reads off the tables.
  open_port : Serial → PortSettings → Bool → Serial × List Call × Status
  open_port s settings refused = if refused then (s, [], failed) else (
    record s { is_open = true },
    configure settings
        ∷ flush_queue both
        ∷ elim s.connect [ none ↦ [] | some handler ↦ connects handler successful ∷ [] ],
    successful,
  )

  pub register_connect_handler : Serial → Option Handler → Serial × Option Handler
  register_connect_handler s callback = (record s { connect = callback }, s.connect)

  pub register_write_handler : Serial → Option Handler → Serial × Option Handler
  register_write_handler s callback = (record s { write = callback }, s.write)

  pub register_read_handler : Serial → Option Handler → Serial × Option Handler
  register_read_handler s callback = (record s { read = callback }, s.read)

  pub register_close_handler : Serial → Option Handler → Serial × Option Handler
  register_close_handler s callback = (record s { close = callback }, s.close)

  pub write_data : Serial → Text → Bool → ErrorCode → List Call × Status
  unfolding is_error
  write_data s bytes asynchronous error =
      if asynchronous
      then elim s.write [
        | none ↦ ([], successful)
        | some handler ↦ (async_write bytes ∷ [], successful)
      ]
      else (write_all bytes ∷ [], if is_error error then failed else successful)

  pub read_async : Serial → ℕ → ℕ → List Call × Status
  read_async s read_at_least timeout_in_ms = (
    async_read (if read_at_least == 0 then 1 else read_at_least)
        ∷ (if timeout_in_ms == 0 then cancel_timer else set_timer timeout_in_ms)
        ∷ [],
    successful,
  )

  -- `extra` is what AppendExtra appends, and `measured` the length that the stream tells of itself.
  pub append_async_read_result : Serial → Text → ℕ → ℕ → Text → Serial × Text × Bool
  append_async_read_result s vector read_at_least measured extra =
      let n = if read_at_least == 0 then measured else read_at_least in
      let received = take n s.read_buffer in
      (
        record s { read_buffer = drop n s.read_buffer },
        vector ++ (received ++ drop (length received) extra),
        leb n (length s.read_buffer),
      )

  -- `asio::read` puts `arrived` behind what the buffer holds.
  pub read_sync : Serial → Text → Text → Text → Serial × Text × Status
  unfolding append_async_read_result
  read_sync s vector arrived extra =
      if length arrived == 0
      then (s, vector, failed)
      else let (s', vector', done) =
          append_async_read_result (record s { read_buffer = s.read_buffer ++ arrived }) vector
            (length arrived) 0 extra in
        (s', vector', if done then successful else failed)

  pub close_now : Serial → Serial × List Call × Status
  unfolding on_close
  close_now s =
      (record s { is_open = false }, cancel_port ∷ close_port ∷ on_close s successful, successful)

  pub is_connected : Serial → Bool
  is_connected s = s.is_open

  -- `direction` is an index into the table.
  flush : ℕ → Option (List Call × Status)
  flush direction = elim (get_elem? flushes direction) [
    | none ↦ none
    | some queue ↦ some (flush_queue queue ∷ [], successful)
  ]

  set_options : Serial → Options → Serial × Status
  set_options s options = (record s { options = options }, successful)
