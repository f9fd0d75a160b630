-- ===== src/Ap/Server/Laws.antt =====
-- The registration server over histories of ends of its operations.
use dlms_access_point.Prelude.{
  is_elem, Option-cases, inl, inr, ℕ, length, take, Text, Bool, true, false, not, ◌||◌, ◌&&◌, ◌+◌,
  ◌≤◌, ◌<◌, ◌≡◌, some, List, [], ◌∷◌, ◌++◌, arith, length-append, refl, sym, ap, ◌∙◌,
}
use dlms_access_point.Ap.Config.{handle_read, Config, interpret}
use dlms_access_point.Ap.Main.{deliver}
use dlms_access_point.Ap.Server.{
  Server, failed, connected, left, Event, accepts, reads, remove, step, on_accept, on_read, new,
  run,
}

-- What an event brings: a message, a connection, the end of the thread.
pub text_of : Event → List Text
text_of (accepts a) = []
text_of (reads connection true buffer n) = []
text_of (reads connection false buffer n) = take n buffer ∷ []

pub texts : List Event → List Text
unfolding text_of
texts [] = []
texts (e ∷ es) = text_of e ++ texts es

connection_of : Event → ℕ
connection_of (accepts failed) = 0
connection_of (accepts connected) = 1
connection_of (accepts (left what)) = 0
connection_of (reads connection error buffer n) = 0

pub connections : List Event → ℕ
unfolding connection_of
connections [] = 0
connections (e ∷ es) = connection_of e + connections es

leaves : Event → Bool
leaves (accepts failed) = false
leaves (accepts connected) = false
leaves (accepts (left what)) = true
leaves (reads connection error buffer n) = false

pub any_leaves : List Event → Bool
unfolding leaves
any_leaves [] = false
any_leaves (e ∷ es) = leaves e || any_leaves es

length-remove-le : (n : ℕ) (xs : List ℕ) → length (remove n xs) ≤ length xs
unfolding remove
length-remove-le n [] = omega arith
length-remove-le n (x ∷ xs) = ground (arith, length-remove-le n xs)

length-remove : (n : ℕ) (xs : List ℕ) → is_elem n xs ≡ true → length (remove n xs) < length xs
unfolding remove
length-remove n [] h = ground arith
length-remove n (x ∷ xs) h = ground (arith, length-remove n xs, length-remove-le n xs)

-- What one event does to the configuration, the connections and the thread.
Stepped : Server → Event → Server → Type 0
Stepped s e s' =
    (s'.cfg ≡ deliver s.cfg (text_of e))
    × (length (text_of e) + length s'.reading ≤ length s.reading + connection_of e)
    × (s'.running ≡ (s.running && not (leaves e)))
    × (s'.accepting ≡ (s.accepting && not (leaves e)))

step-Stepped : (s s' : Server) (e : Event) → step s e ≡ some s' → Stepped s e s'
unfolding Stepped step on_accept on_read text_of connection_of leaves deliver handle_read
step-Stepped s s' (accepts failed) h = ground arith
step-Stepped s s' (accepts connected) h = ground (arith, length-append s.reading (s.accepted ∷ []))
step-Stepped s s' (accepts (left what)) h = ground arith
step-Stepped s s' (reads connection true buffer n) h =
    ground (arith, length-remove connection s.reading)
step-Stepped s s' (reads connection false buffer n) h =
    ground (arith, length-remove connection s.reading)

deliver-append : (c : Config) (xs ys : List Text) → deliver c (xs ++ ys) ≡ deliver (deliver c xs) ys
unfolding deliver
deliver-append c [] ys = refl
deliver-append c (x ∷ xs) ys = deliver-append (interpret c x) xs ys

unfoldable pub Ran : Server → List Event → Server → Type 0
Ran s es s' =
    (s'.cfg ≡ deliver s.cfg (texts es))
    × (length (texts es) + length s'.reading ≤ length s.reading + connections es)
    × (s'.running ≡ (s.running && not (any_leaves es)))
    × (s'.accepting ≡ (s.accepting && not (any_leaves es)))

Stepped-Ran :
    (s s' s'' : Server) (e : Event) (es : List Event)
    → Stepped s e s'
    → Ran s' es s''
    → Ran s (e ∷ es) s''
unfolding Stepped Ran texts connections any_leaves
Stepped-Ran s s' s'' e es (c, n, r, a) (c', n', r', a') = (
  c' ∙ ap (λ x. deliver x (texts es)) c ∙ sym (deliver-append s.cfg (text_of e) (texts es)),
  omega (arith, n, n', length-append (text_of e) (texts es)),
  ground arith,
  ground arith,
)

pub run-Ran : (s s' : Server) (es : List Event) → run s es ≡ some s' → Ran s es s'
unfolding run Ran texts connections any_leaves deliver
run-Ran s s' [] h = ground arith
run-Ran s s' (e ∷ es) h = elim (Option-cases (step s e)) [
  | inl n ↦ absurd (ground arith)
  | inr (m, q) ↦ Stepped-Ran s m s' e es (step-Stepped s m e q) (run-Ran m s' es (ground arith))
]

-- Whatever operations end, in whatever order the event loop can report them, since the access point
-- has started to listen: its configuration is that of taking in, one after the other, what the
-- error-free reads brought; each connection brings at most one message; and the thread runs and
-- listens exactly if no accepted connection's peer had left before it was asked for its address.
pub run-deliver :
    (cfg : Config) (es : List Event) (s : Server)
    → run (new cfg) es ≡ some s
    → (s.cfg ≡ deliver cfg (texts es))
      × (length (texts es) + length s.reading ≤ connections es)
      × (s.running ≡ not (any_leaves es))
      × (s.accepting ≡ not (any_leaves es))
unfolding new Ran
run-deliver cfg es s h =
    let (taken, reads_once, runs, listens) = run-Ran (new cfg) s es h in
    (taken, omega (arith, reads_once), runs, listens)
