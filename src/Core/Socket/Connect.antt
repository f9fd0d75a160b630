-- ===== src/Core/Socket/Connect.antt =====
-- A connection attempt from the resolver's answer on, over the endpoints that it found.
use dlms_access_point.Prelude.{
  if◌then◌else◌, Text, ◌≡◌, refl, ap, Bool, true, false, ◌||◌, none, some, List, [], ◌∷◌, ◌++◌,
  arith, Option,
}
use dlms_access_point.Core.Io.{ErrorCode, no_error, Status, successful, is_error}
use dlms_access_point.Core.Socket.{
  Socket, Call, connects, writes, reads, closes, async_connect, async_resolve, async_write,
  write_all, async_read, listen, async_accept, close_socket, throws, resolver_handler,
  connect_handler,
}

module _ (Handler Endpoint : Type 0)
    -- How a connection to an endpoint ends, and the address of the peer: `none` where
    -- `remote_endpoint` throws, as it does for a connection that is lost by then.
    (outcome : Endpoint → ErrorCode) (address : Endpoint → Option Text) where
  is_connect : Call Handler Endpoint → Bool
  is_connect (async_connect e it) = true
  is_connect (connects h st) = false
  is_connect (writes h st n) = false
  is_connect (reads h st n) = false
  is_connect (closes h st) = false
  is_connect (async_resolve t n) = false
  is_connect (async_write t) = false
  is_connect (write_all t) = false
  is_connect (async_read n) = false
  is_connect (listen b c n) = false
  is_connect async_accept = false
  is_connect close_socket = false
  is_connect throws = false

  retries : List (Call Handler Endpoint) → Bool
  unfolding is_connect
  retries [] = false
  retries (c ∷ calls) = is_connect c || retries calls

  -- The calls from a pending connection to the first of the endpoints on.
  drive : Socket Handler Endpoint → List Endpoint → List (Call Handler Endpoint)
  unfolding retries
  drive s [] = []
  drive s (e ∷ it) =
      let (s', calls) = connect_handler Handler Endpoint s (outcome e) it (address e) in
      let later = drive s' it in if retries calls then calls ++ later else calls

  -- From the answer of the resolver on.
  pub connection : Socket Handler Endpoint → List Endpoint → List (Call Handler Endpoint)
  unfolding drive
  connection s it =
      let (s', calls) = resolver_handler Handler Endpoint s no_error it in calls ++ drive s' it

  -- The endpoints tried, and the results that the connect handler hears.
  pub attempted : List (Call Handler Endpoint) → List Endpoint
  attempted [] = []
  attempted (async_connect e it ∷ calls) = e ∷ attempted calls
  attempted (connects h st ∷ calls) = attempted calls
  attempted (writes h st n ∷ calls) = attempted calls
  attempted (reads h st n ∷ calls) = attempted calls
  attempted (closes h st ∷ calls) = attempted calls
  attempted (async_resolve t n ∷ calls) = attempted calls
  attempted (async_write t ∷ calls) = attempted calls
  attempted (write_all t ∷ calls) = attempted calls
  attempted (async_read n ∷ calls) = attempted calls
  attempted (listen b c n ∷ calls) = attempted calls
  attempted (async_accept ∷ calls) = attempted calls
  attempted (close_socket ∷ calls) = attempted calls
  attempted (throws ∷ calls) = attempted calls

  pub heard : List (Call Handler Endpoint) → List (Handler × Status)
  heard [] = []
  heard (async_connect e it ∷ calls) = heard calls
  heard (connects h st ∷ calls) = (h, st) ∷ heard calls
  heard (writes h st n ∷ calls) = heard calls
  heard (reads h st n ∷ calls) = heard calls
  heard (closes h st ∷ calls) = heard calls
  heard (async_resolve t n ∷ calls) = heard calls
  heard (async_write t ∷ calls) = heard calls
  heard (write_all t ∷ calls) = heard calls
  heard (async_read n ∷ calls) = heard calls
  heard (listen b c n ∷ calls) = heard calls
  heard (async_accept ∷ calls) = heard calls
  heard (close_socket ∷ calls) = heard calls
  heard (throws ∷ calls) = heard calls

  -- Whether an exception leaves the handler.
  pub has_thrown : List (Call Handler Endpoint) → Bool
  has_thrown [] = false
  has_thrown (throws ∷ calls) = true
  has_thrown (async_connect e it ∷ calls) = has_thrown calls
  has_thrown (connects h st ∷ calls) = has_thrown calls
  has_thrown (writes h st n ∷ calls) = has_thrown calls
  has_thrown (reads h st n ∷ calls) = has_thrown calls
  has_thrown (closes h st ∷ calls) = has_thrown calls
  has_thrown (async_resolve t n ∷ calls) = has_thrown calls
  has_thrown (async_write t ∷ calls) = has_thrown calls
  has_thrown (write_all t ∷ calls) = has_thrown calls
  has_thrown (async_read n ∷ calls) = has_thrown calls
  has_thrown (listen b c n ∷ calls) = has_thrown calls
  has_thrown (async_accept ∷ calls) = has_thrown calls
  has_thrown (close_socket ∷ calls) = has_thrown calls

  -- The endpoints up to the first that accepts, and that one's address if there is one: `none` if
  -- none accepts, and `some none` if the peer cannot be named.
  pub up_to_success : List Endpoint → List Endpoint
  up_to_success [] = []
  up_to_success (e ∷ it) = e ∷ (if is_error (outcome e) then up_to_success it else [])

  pub first_accepting : List Endpoint → Option (Option Text)
  first_accepting [] = none
  first_accepting (e ∷ it) =
      let later = first_accepting it in if is_error (outcome e) then later else some (address e)

  pub told : Handler → Option (Option Text) → List (Handler × Status)
  told h none = []
  told h (some none) = []
  told h (some (some a)) = (h, successful) ∷ []

  pub is_lost : Option (Option Text) → Bool
  is_lost none = false
  is_lost (some none) = true
  is_lost (some (some a)) = false

  drive-up_to_success :
      (s : Socket Handler Endpoint) (h : Handler) (e : Endpoint) (it : List Endpoint)
      → s.connect ≡ some h
      → (e ∷ attempted (drive s (e ∷ it)) ≡ up_to_success (e ∷ it))
        × (heard (drive s (e ∷ it)) ≡ told h (first_accepting (e ∷ it)))
        × (has_thrown (drive s (e ∷ it)) ≡ is_lost (first_accepting (e ∷ it)))
  unfolding drive connect_handler attempted heard has_thrown up_to_success first_accepting told
      is_lost
  drive-up_to_success s h e [] c = ground arith
  drive-up_to_success s h e (e' ∷ it) c =
      ground (arith, drive-up_to_success (record s { is_open = true }) h e' it c)

  -- With a connect handler registered, the endpoints are tried in their order up to the first that
  -- accepts and no further. If that one's address can be asked for, the handler hears of success
  -- exactly once and no exception leaves the attempt; if it cannot, the handler hears nothing and the
  -- exception leaves it; and if none accepts, the handler hears nothing.
  pub connection-up_to_success :
      (s : Socket Handler Endpoint) (h : Handler) (it : List Endpoint)
      → s.connect ≡ some h
      → (attempted (connection s it) ≡ up_to_success it)
        × (heard (connection s it) ≡ told h (first_accepting it))
        × (has_thrown (connection s it) ≡ is_lost (first_accepting it))
  unfolding connection resolver_handler attempted heard has_thrown
  connection-up_to_success s h [] c =
      unfold up_to_success first_accepting told is_lost in (refl, refl, refl)
  connection-up_to_success s h (e ∷ it) c =
      drive-up_to_success (record s { is_open = true }) h e it c

  drive_unheard :
      (s : Socket Handler Endpoint) (e : Endpoint) (it : List Endpoint)
      → s.connect ≡ none
      → (attempted (drive s (e ∷ it)) ≡ it) × (heard (drive s (e ∷ it)) ≡ [])
  unfolding drive connect_handler attempted heard
  drive_unheard s e [] c = ground arith
  drive_unheard s e (e' ∷ it) c =
      ground (arith, drive_unheard (record s { is_open = true }) e' it c)

  -- Without a connect handler every endpoint is tried, also behind one that accepts: its connection
  -- is closed again for the next.
  connection_unheard :
      (s : Socket Handler Endpoint) (it : List Endpoint)
      → s.connect ≡ none
      → (attempted (connection s it) ≡ it) × (heard (connection s it) ≡ [])
  unfolding connection resolver_handler attempted heard
  connection_unheard s [] c = (refl, refl)
  connection_unheard s (e ∷ it) c =
      let (tried, silent) = drive_unheard (record s { is_open = true }) e it c in
      (ap (◌∷◌ e) tried, silent)
