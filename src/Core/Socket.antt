-- ===== src/Core/Socket.antt =====
-- src/core/LinuxSocket.{h,cpp}, class LinuxTCPSocket. An operation returns the socket and the calls
-- that it makes, in their order: of asio and of the registered handlers. What asio answers is an
-- argument. Traces are left out.
pub mod Handlers
pub mod Connect
pub mod Transfer
mod Tests
use dlms_access_point.Prelude.{
  ℕ, ◌==◌, if◌then◌else◌, length, drop, Text, Bool, true, false, not, ◌||◌, Option, none, some,
  List, [], ◌∷◌, ◌++◌, leb, take,
}
use dlms_access_point.Core.Io.{
  ErrorCode, Status, successful, failed, is_error, is_eof, is_connection_reset,
  is_operation_aborted,
}

-- `IIP::Options`.
pub record Options : Type 0 where
  pub is_server : Bool
  pub is_version4 : Bool
  pub reuse_address : Bool

-- `Handler` is the type of a registered `std::function`, `Endpoint` that of a resolved address.
module _ (Handler Endpoint : Type 0) where
  pub data Call : Type 0 where
    -- A handler is called.
    connects : Handler → Status → Call
    writes reads : Handler → Status → ℕ → Call
    closes : Handler → Status → Call
    -- An asio operation is started; `async_connect` holds the endpoints behind its own.
    async_connect : Endpoint → List Endpoint → Call
    async_resolve : Text → ℕ → Call
    async_write write_all : Text → Call
    async_read : ℕ → Call
    listen : Bool → Bool → ℕ → Call
    async_accept : Call
    close_socket : Call
    -- An exception leaves the handler.
    throws : Call

  pub record Socket : Type 0 where
    pub options : Options
    pub is_open : Bool
    pub read_buffer : Text
    pub connect : Option Handler
    pub write : Option Handler
    pub read : Option Handler
    pub close : Option Handler

  pub new : Options → Socket
  new options = record {
    options = options;
    is_open = false;
    read_buffer = [];
    connect = none;
    write = none;
    read = none;
    close = none;
  }

  -- `remote` is what `remote_endpoint()` answers; it throws (`none`) on a socket with no peer.
  accept_handler : Socket → ErrorCode → Option Text → List Call
  unfolding is_error
  accept_handler s error remote = elim s.connect [
    | none ↦ []
    | some handler ↦ elim remote [
      | none ↦ throws ∷ []
      | some address ↦ connects handler (if is_error error then failed else successful) ∷ []
    ]
  ]

  -- asio opens the socket for a connection.
  start_connect : Socket → List Endpoint → Socket × List Call
  start_connect s [] = (s, [])
  start_connect s (e ∷ it) = (record s { is_open = true }, async_connect e it ∷ [])

  -- asio calls it with at least one endpoint where there is no error.
  pub resolver_handler : Socket → ErrorCode → List Endpoint → Socket × List Call
  unfolding is_error start_connect
  resolver_handler s error it = if is_error error then (s, []) else start_connect s it

  try_next : Socket → List Endpoint → Socket × List Call
  unfolding start_connect
  try_next s [] = (s, [])
  try_next s (e ∷ it) =
      let (s', calls) = start_connect (record s { is_open = false }) (e ∷ it) in
      (s', close_socket ∷ calls)

  pub connect_handler : Socket → ErrorCode → List Endpoint → Option Text → Socket × List Call
  unfolding is_error try_next
  connect_handler s error it remote = elim s.connect [
    | none ↦ try_next s it
    | some handler ↦ if is_error error then try_next s it else elim remote [
      | none ↦ (s, throws ∷ [])
      | some address ↦ (s, connects handler successful ∷ [])
    ]
  ]

  -- The errors that both handlers take for a disconnection.
  is_disconnection : ErrorCode → Bool
  unfolding is_eof is_connection_reset is_operation_aborted
  is_disconnection error = is_eof error || is_connection_reset error || is_operation_aborted error

  call_close : Socket → List Call
  call_close s = elim s.close [ none ↦ [] | some handler ↦ closes handler successful ∷ [] ]

  pub write_handler : Socket → ErrorCode → ℕ → List Call
  unfolding is_disconnection call_close is_error
  write_handler s error bytes_transferred =
      if is_disconnection error then call_close s else elim s.write [
        | none ↦ []
        | some handler ↦
            writes handler (if is_error error || not s.is_open then failed else successful)
              bytes_transferred
            ∷ []
      ]

  pub read_handler : Socket → ErrorCode → ℕ → List Call
  unfolding is_disconnection call_close is_error
  read_handler s error bytes_transferred =
      if is_disconnection error then call_close s else elim s.read [
        | none ↦ []
        | some handler ↦
            reads handler (if is_error error then failed else successful) bytes_transferred ∷ []
      ]

  -- `refused` says that an asio call throws, which is caught.
  open_socket : Socket → Option Text → ℕ → Bool → Socket × List Call × Status
  open_socket s destination port refused =
      if s.options.is_server
      then if refused then (s, [], failed) else (
        s,
        listen s.options.is_version4 s.options.reuse_address port ∷ async_accept ∷ [],
        successful,
      )
      else elim destination [
        | none ↦ (s, [], failed)
        | some address ↦ if refused then (s, [], failed) else (
          record s { is_open = false },
          close_socket ∷ async_resolve address port ∷ [],
          successful,
        )
      ]

  pub register_connect_handler : Socket → Option Handler → Socket × Option Handler
  register_connect_handler s callback = (record s { connect = callback }, s.connect)

  pub register_write_handler : Socket → Option Handler → Socket × Option Handler
  register_write_handler s callback = (record s { write = callback }, s.write)

  pub register_read_handler : Socket → Option Handler → Socket × Option Handler
  register_read_handler s callback = (record s { read = callback }, s.read)

  pub register_close_handler : Socket → Option Handler → Socket × Option Handler
  register_close_handler s callback = (record s { close = callback }, s.close)

  -- `error` is what `asio::write` reports.
  pub write_data : Socket → Text → Bool → ErrorCode → List Call × Status
  unfolding is_error
  write_data s bytes asynchronous error =
      if asynchronous
      then elim s.write [
        | none ↦ ([], successful)
        | some handler ↦ (async_write bytes ∷ [], successful)
      ]
      else (write_all bytes ∷ [], if is_error error then failed else successful)

  -- The asynchronous read, with no vector to fill.
  pub read_async : Socket → ℕ → List Call × Status
  read_async s read_at_least =
      (async_read (if read_at_least == 0 then 1 else read_at_least) ∷ [], successful)

  -- The synchronous read: `available` bytes are waiting, AppendExtra appends `extra` of that length
  -- to the vector, and `read_some` overwrites the first of them by `received`.
  pub read_sync : Socket → Text → ℕ → Text → Text → ErrorCode → Text × List Call × Status × Option ℕ
  unfolding is_error is_eof is_connection_reset call_close
  read_sync s vector available extra received error =
      if available == 0 then (vector, [], failed, none) else (
        vector ++ (received ++ drop (length received) extra),
        (if is_eof error || is_connection_reset error then call_close s else []),
        (if is_eof error || is_connection_reset error
            then successful
            else if is_error error
            then failed
            else successful),
        some (length received),
      )

  -- `measured` is the length that the stream tells of itself, and `extra` what AppendExtra appends.
  -- A read that finds too few bytes takes them and fails.
  pub append_async_read_result : Socket → Text → ℕ → ℕ → Text → Socket × Text × Bool
  append_async_read_result s vector read_at_least measured extra =
      let n = if read_at_least == 0 then measured else read_at_least in
      let received = take n s.read_buffer in
      (
        record s { read_buffer = drop n s.read_buffer },
        vector ++ (received ++ drop (length received) extra),
        leb n (length s.read_buffer),
      )

  pub close_now : Socket → Socket × List Call × Status
  close_now s = (record s { is_open = false }, close_socket ∷ [], successful)

  pub is_connected : Socket → Bool
  is_connected s = s.is_open
