-- ===== src/Web/Session.antt =====
-- Class session of src/websocket/server.cpp and of src/websocket/taskrunner.cpp: one websocket
-- connection. Each handler starts at most one asynchronous operation, so the state holds the one
-- that is outstanding; a session with none is destroyed. The handlers of one session run on its
-- strand, one at a time.
pub mod Laws
pub mod Local
use dlms_access_point.Prelude.{Text, Option, none, some, List, [], ◌∷◌, ◌++◌}

-- `error_code` as the handlers test it: `closed` is websocket::error::closed.
pub data Result : Type 0 where
  fine closed other_failure : Result

-- async_accept, async_read into the buffer, and async_write of its contents.
pub data Operation : Type 0 where
  accepts reads : Operation
  writes : Text → Operation

-- What the programs print of a failure.
pub data Failure : Type 0 where
  accept_failed read_failed write_failed : Failure

-- The end of the outstanding operation. A read has appended `bytes` to the buffer, all of a message
-- or, with an error, what came of it.
pub record Completion : Type 0 where
  pub ec : Result
  pub bytes : Text

-- `Shared` is what the sessions of a server share.
module _ (Shared : Type 0) where
  -- `output` is what `fail` has printed.
  pub record Session : Type 0 where
    pub shared : Shared
    pub buffer : Text
    pub operation : Option Operation
    pub output : List Failure

  -- The constructor and `run`.
  pub start : Shared → Session
  start shared = record { shared = shared; buffer = []; operation = some accepts; output = [] }

  do_read : Session → Session
  do_read s = record s { operation = some reads }

  fail : Session → Failure → Session
  fail s what = record s { output = s.output ++ what ∷ [] }

  finished : Session → Session
  finished s = record s { operation = none }

  pub on_accept : Session → Result → Session
  unfolding do_read fail finished
  on_accept s fine = do_read s
  on_accept s closed = finished (fail s accept_failed)
  on_accept s other_failure = finished (fail s accept_failed)

  on_write : Session → Result → Session
  unfolding do_read fail finished
  on_write s fine = do_read (record s { buffer = [] })
  on_write s closed = finished (fail s write_failed)
  on_write s other_failure = finished (fail s write_failed)

  -- `answer` is the part of on_read in which the two programs differ: what becomes of the shared
  -- state and of the buffer.
  module _ (answer : Shared → Text → Shared × Text) where
    reply : Session → Session
    reply s =
        let (shared', buffer') = answer s.shared s.buffer in
        record s { shared = shared'; buffer = buffer'; operation = some (writes buffer') }

    on_read : Session → Result → Session
    unfolding reply fail finished
    on_read s fine = reply s
    on_read s closed = finished s
    on_read s other_failure = reply (fail s read_failed)

    -- The handler of the operation that has ended.
    completed : Option Operation → Session → Completion → Session
    unfolding on_accept on_read on_write
    completed none s c = s
    completed (some accepts) s c = on_accept s c.ec
    completed (some reads) s c = on_read (record s { buffer = s.buffer ++ c.bytes }) c.ec
    completed (some (writes contents)) s c = on_write s c.ec

    unfoldable pub step : Session → Completion → Session
    unfolding completed
    step s c = completed s.operation s c

    unfoldable pub run : Session → List Completion → Session
    unfolding step
    run s [] = s
    run s (c ∷ cs) = run (step s c) cs

    -- The data that the writes send, in their order.
    pub sent_by : Option Operation → List Text
    sent_by none = []
    sent_by (some accepts) = []
    sent_by (some reads) = []
    sent_by (some (writes contents)) = contents ∷ []

    unfoldable pub sent : Session → List Completion → List Text
    unfolding step sent_by
    sent s [] = []
    sent s (c ∷ cs) = sent_by s.operation ++ sent (step s c) cs
