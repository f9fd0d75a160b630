-- ===== src/Web/Program/Apart.antt =====
-- One session of a server among the others.
use mathlib.Core.Path.{ap₂, subst}
use dlms_access_point.Prelude.{
  zero, suc, ℕ, ◌==◌, if◌then◌else◌, get_elem?, get_elem?-set_self, get_elem?-set_ne,
  get_elem?-cases, length, ◌<◌, Bool-cases, Option-cases, inl, inr, Text, Bool, ◌≡◌, ◌≢◌, sym, ◌∙◌,
  Option, none, some, List, [], ◌∷◌, ◌++◌, arith, refl, ap, true, false,
}
use dlms_access_point.Web.Session.{Completion, Session, step, sent_by, sent}
use dlms_access_point.Web.Session as Alone
use dlms_access_point.Web.Session.Local.{SameLocal, Independent, step-SameLocal}
use dlms_access_point.Web.Program.{
  Event, accepted, completed, Program, handle, on_accepted, on_completed, run_all,
}

-- What ends for one session.
unfoldable pub completions : ℕ → List Event → List Completion
completions i [] = []
completions i (accepted succeeded ∷ es) = completions i es
completions i (completed j c ∷ es) =
    let rest = completions i es in if i == j then c ∷ rest else rest

get_elem?-append :
    {A : Type 0} (xs ys : List A) (i : ℕ) (a : A)
    → get_elem? xs i ≡ some a
    → get_elem? (xs ++ ys) i ≡ some a
get_elem?-append [] ys i a h = absurd (ground arith)
get_elem?-append (x ∷ xs) ys zero a h = h
get_elem?-append (x ∷ xs) ys (suc i) a h = get_elem?-append xs ys i a h

get_elem?-lt : {A : Type 0} (xs : List A) (i : ℕ) (a : A) → get_elem? xs i ≡ some a → i < length xs
get_elem?-lt xs i a h = elim (get_elem?-cases xs i) [
  | inl (le, n) ↦ absurd (ground arith)
  | inr (lt, r) ↦ lt
]

module _ (Shared : Type 0) (answer : Shared → Text → Shared × Text) where
  -- One session's own state, after an event that may be its own.
  abbrev pub At : Program Shared → ℕ → Session Shared → Type 0
  At p i t = (s : Session Shared) × (get_elem? p.sessions i ≡ some s) × SameLocal Shared s t

  accepted-At :
      (p : Program Shared) (succeeded : Bool) (i : ℕ) (t : Session Shared)
      → At p i t
      → At (handle Shared answer p (accepted succeeded)) i t
  unfolding handle on_accepted
  accepted-At p succeeded i t (s, e, same) = elim (Bool-cases p.listener.accepting) [
    | inl a ↦ elim (Bool-cases succeeded) [
      | inl b ↦ rw (a, on_accepted, b) (s, get_elem?-append p.sessions _ i s e, same)
      | inr b ↦ rw (a, on_accepted, b) (s, e, same)
    ]
    | inr a ↦ rw (a) (s, e, same)
  ]

  other-At :
      (p : Program Shared) (i j : ℕ) (c : Completion) (t : Session Shared)
      → i ≢ j
      → At p i t
      → At (handle Shared answer p (completed j c)) i t
  unfolding handle on_completed
  other-At p i j c t ne (s, e, same) = elim (Option-cases (get_elem? p.sessions j)) [
    | inl n ↦ rw (n, on_completed) (s, e, same)
    | inr (u, q) ↦
        rw (q, on_completed) (s, get_elem?-set_ne p.sessions j i _ (λ h. ne (sym h)) ∙ e, same)
  ]

  self-At :
      (p : Program Shared) (i : ℕ) (c : Completion) (t : Session Shared)
      → Independent Shared answer
      → At p i t
      → At (handle Shared answer p (completed i c)) i (step Shared answer t c)
  unfolding handle on_completed
  self-At p i c t independent (s, e, same) =
      rw (e, on_completed)
        (
          step Shared answer (record s { shared = p.shared }) c,
          get_elem?-set_self p.sessions i _ (get_elem?-lt p.sessions i s e),
          step-SameLocal Shared answer (record s { shared = p.shared }) t c independent same,
        )

  -- The data that one session's writes send while the program runs.
  now : ℕ → Program Shared → Event → List Text
  now i p (accepted succeeded) = []
  now i p (completed j c) = if i == j then sends (get_elem? p.sessions i) else []
    where
      sends : Option (Session Shared) → List Text
      sends none = []
      sends (some s) = sent_by Shared answer s.operation

  pub sent_to : ℕ → Program Shared → List Event → List Text
  unfolding now
  sent_to i p [] = []
  sent_to i p (e ∷ es) = now i p e ++ sent_to i (handle Shared answer p e) es

  -- The events that one session sees are those of a session alone.
  abbrev pub Apart : ℕ → Program Shared → Session Shared → List Event → Type 0
  Apart i p t es =
      At (run_all Shared answer p es) i (Alone.run Shared answer t (completions i es))
      × (sent_to i p es ≡ sent Shared answer t (completions i es))

  now_self :
      (p : Program Shared) (i : ℕ) (c : Completion) (s : Session Shared)
      → get_elem? p.sessions i ≡ some s
      → now i p (completed i c) ≡ sent_by Shared answer s.operation
  unfolding now
  now_self p i c s e = let own : (i == i) ≡ true = ground arith in rw (own, now, e) refl

  completions_self :
      (i : ℕ) (c : Completion) (es : List Event)
      → completions i (completed i c ∷ es) ≡ c ∷ completions i es
  unfolding completions
  completions_self i c es = let own : (i == i) ≡ true = ground arith in rw (own) refl

  self-Apart :
      (p : Program Shared) (i : ℕ) (c : Completion) (t : Session Shared) (es : List Event)
      → At p i t
      → Apart i (handle Shared answer p (completed i c)) (step Shared answer t c) es
      → Apart i p t (completed i c ∷ es)
  unfolding run_all Alone.run sent sent_to
  self-Apart p i c t es (s, e, same) (at, talk) =
      rw (completions_self i c es)
        (at, ap₂ ◌++◌ (now_self p i c s e ∙ ap (sent_by Shared answer) same.1) talk)

  other-Apart :
      (p : Program Shared) (i j : ℕ) (c : Completion) (t : Session Shared) (es : List Event)
      → (i == j) ≡ false
      → Apart i (handle Shared answer p (completed j c)) t es
      → Apart i p t (completed j c ∷ es)
  unfolding run_all completions Alone.run sent sent_to now
  other-Apart p i j c t es other (at, talk) = rw (other, completions, now) (at, talk)

  pub run-Apart :
      (p : Program Shared) (i : ℕ) (t : Session Shared) (es : List Event)
      → Independent Shared answer
      → At p i t
      → Apart i p t es
  unfolding run_all completions Alone.run sent sent_to now
  run-Apart p i t [] independent at = (at, refl)
  run-Apart p i t (accepted succeeded ∷ es) independent at =
      run-Apart (handle Shared answer p (accepted succeeded)) i t es independent
        (accepted-At p succeeded i t at)
  run-Apart p i t (completed j c ∷ es) independent at = elim (Bool-cases (i == j)) [
    | inl own ↦
        let same : i ≡ j = ground arith in
        subst (λ k. Apart i p t (completed k c ∷ es)) same
          (self-Apart p i c t es at (
            run-Apart (handle Shared answer p (completed i c)) i (step Shared answer t c) es
              independent (self-At p i c t independent at)))
    | inr other ↦ other-Apart p i j c t es other (
        run-Apart (handle Shared answer p (completed j c)) i t es independent
          (other-At p i j c t (λ e. ground arith) at))
  ]
