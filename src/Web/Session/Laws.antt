-- ===== src/Web/Session/Laws.antt =====
-- Conversations.
use dlms_access_point.Prelude.{Text, ◌≡◌, refl, ap, Option, none, some, List, [], ◌∷◌}
use dlms_access_point.Web.Session.{
  fine, closed, other_failure, Operation, accepts, reads, writes, Failure, Completion, Session,
  start, step, run, sent, reply, Result,
}

module _ (Shared : Type 0) (answer : Shared → Text → Shared × Text) where
  -- A client that sends each message after the answer to the one before.
  unfoldable pub conversation : List Text → List Completion
  conversation [] = []
  conversation (m ∷ ms) =
      record { ec = fine; bytes = m } ∷ record { ec = fine; bytes = [] } ∷ conversation ms

  -- What a message answers by itself, and what the messages leave of the shared state.
  unfoldable pub answers : Shared → List Text → List Text
  answers shared [] = []
  answers shared (m ∷ ms) = let (shared', reply) = answer shared m in reply ∷ answers shared' ms

  unfoldable pub shared_after : Shared → List Text → Shared
  shared_after shared [] = shared
  shared_after shared (m ∷ ms) = shared_after (answer shared m).0 ms

  -- A session that waits for a message, with nothing left over from the last.
  abbrev pub idle : Shared → List Failure → Session Shared
  idle shared output = record {
    shared = shared;
    buffer = [];
    operation = some reads;
    output = output;
  }

  run-idle :
      (shared : Shared) (output : List Failure) (messages : List Text)
      → (sent Shared answer (idle shared output) (conversation messages) ≡ answers shared messages)
        × (run Shared answer (idle shared output) (conversation messages)
            ≡ idle (shared_after shared messages) output)
  unfolding run sent conversation answers shared_after
  run-idle shared output [] = (refl, refl)
  run-idle shared output (m ∷ ms) =
      let (talk, end) = run-idle (answer shared m).0 output ms in
      (ap (◌∷◌ (answer shared m).1) talk, end)

  -- A session over a connection that does not fail answers each message by itself and in order, as
  -- its program answers that message in the state that the earlier ones left; nothing of one message
  -- stays for the next, nothing is printed, and the session waits for more at the end.
  pub run-conversation :
      (shared : Shared) (messages : List Text)
      → let events = record { ec = fine; bytes = [] } ∷ conversation messages in
        (sent Shared answer (start Shared shared) events ≡ answers shared messages)
        × (run Shared answer (start Shared shared) events ≡ idle (shared_after shared messages) [])
  unfolding run sent start
  run-conversation shared messages = run-idle shared [] messages

  -- What a state holds between two events: a read starts on an empty buffer, and what is written is
  -- the whole buffer.
  pub IsWellFormed : Session Shared → Type 0
  IsWellFormed s = elim s.operation [
    | none ↦ Unit
    | some op ↦ elim op [
      | accepts ↦ s.buffer ≡ []
      | reads ↦ s.buffer ≡ []
      | writes contents ↦ s.buffer ≡ contents
    ]
  ]

  step-IsWellFormed :
      (shared : Shared) (buffer : Text) (op : Option Operation) (output : List Failure)
      (ec : Result) (b : Text)
      → let s : Session Shared = record {
        shared = shared;
        buffer = buffer;
        operation = op;
        output = output;
      } in
        IsWellFormed s → IsWellFormed (step Shared answer s (record { ec = ec; bytes = b }))
  unfolding step IsWellFormed
  step-IsWellFormed shared buffer none output ec b w = w
  step-IsWellFormed shared buffer (some accepts) output fine b w = w
  step-IsWellFormed shared buffer (some accepts) output closed b w = tt
  step-IsWellFormed shared buffer (some accepts) output other_failure b w = tt
  step-IsWellFormed shared buffer (some reads) output fine b w = refl
  step-IsWellFormed shared buffer (some reads) output closed b w = tt
  step-IsWellFormed shared buffer (some reads) output other_failure b w = refl
  step-IsWellFormed shared buffer (some (writes d)) output fine b w = refl
  step-IsWellFormed shared buffer (some (writes d)) output closed b w = tt
  step-IsWellFormed shared buffer (some (writes d)) output other_failure b w = tt

  run-IsWellFormed :
      (s : Session Shared) (cs : List Completion)
      → IsWellFormed s
      → IsWellFormed (run Shared answer s cs)
  unfolding run
  run-IsWellFormed s [] w = w
  run-IsWellFormed s (c ∷ cs) w =
      run-IsWellFormed (step Shared answer s c) cs
        (step-IsWellFormed s.shared s.buffer s.operation s.output c.ec c.bytes w)

  -- However the operations of a session end, also in errors, every read and the handshake start on
  -- an empty buffer, and every write sends the whole buffer.
  pub run-start-IsWellFormed :
      (shared : Shared) (cs : List Completion)
      → IsWellFormed (run Shared answer (start Shared shared) cs)
  unfolding IsWellFormed start
  run-start-IsWellFormed shared cs = run-IsWellFormed (start Shared shared) cs refl
