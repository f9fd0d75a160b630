-- ===== src/Web/Session/Local.antt =====
-- What a session holds of its own, beside the state that it shares.
use mathlib.Core.Path.{subst}
use dlms_access_point.Prelude.{Text, ◌≡◌, ap, Option, none, some, ◌++◌, arith, refl, [], ◌∷◌, ◌∙◌}
use dlms_access_point.Web.Session.{
  read_failed, Operation, accepts, reads, writes, Completion, Session, reply, Result, completed,
  on_accept, on_read, on_write, fine, closed, other_failure, step,
}

module _ (Shared : Type 0) where
  abbrev pub SameLocal : Session Shared → Session Shared → Type 0
  SameLocal s t = (s.buffer ≡ t.buffer) × (s.operation ≡ t.operation) × (s.output ≡ t.output)

  module _ (answer : Shared → Text → Shared × Text) where
    -- What is answered does not depend on what is shared.
    abbrev pub Independent : Type 0
    Independent = (a b : Shared) (buffer : Text) → (answer a buffer).1 ≡ (answer b buffer).1

    same_reply :
        (s t : Session Shared)
        → Independent
        → s.buffer ≡ t.buffer
        → (answer s.shared s.buffer).1 ≡ (answer t.shared t.buffer).1
    same_reply s t independent b =
        independent s.shared t.shared s.buffer ∙ ap (λ x. (answer t.shared x).1) b

    on_read-SameLocal :
        (s t : Session Shared) (ec : Result)
        → Independent
        → SameLocal s t
        → SameLocal (on_read Shared answer s ec) (on_read Shared answer t ec)
    unfolding on_read reply
    on_read-SameLocal s t fine independent (b, o, p) =
        let e = same_reply s t independent b in (e, ap (λ x. some (writes x)) e, p)
    on_read-SameLocal s t closed independent (b, o, p) = (b, refl, p)
    on_read-SameLocal s t other_failure independent (b, o, p) =
        let e = same_reply s t independent b in
        (e, ap (λ x. some (writes x)) e, ap (λ l. l ++ read_failed ∷ []) p)

    completed-SameLocal :
        (o : Option Operation) (s t : Session Shared) (c : Completion)
        → Independent
        → SameLocal s t
        → SameLocal (completed Shared answer o s c) (completed Shared answer o t c)
    unfolding completed on_accept on_write
    completed-SameLocal none s t c independent h = h
    completed-SameLocal (some accepts) s t c independent h = ground arith
    completed-SameLocal (some reads) s t c independent (b, o, p) =
        on_read-SameLocal (record s { buffer = s.buffer ++ c.bytes })
          (record t { buffer = t.buffer ++ c.bytes }) c.ec independent
          (ap (λ x. x ++ c.bytes) b, o, p)
    completed-SameLocal (some (writes contents)) s t c independent h = ground arith

    pub step-SameLocal :
        (s t : Session Shared) (c : Completion)
        → Independent
        → SameLocal s t
        → SameLocal (step Shared answer s c) (step Shared answer t c)
    unfolding step
    step-SameLocal s t c independent (b, o, p) =
        subst
          (λ x. SameLocal (completed Shared answer s.operation s c) (completed Shared answer x t c))
          o (completed-SameLocal s.operation s t c independent (b, o, p))
