-- ===== src/Client/Outcome.antt =====
-- How a call that runs the event loop ends: OnGetConfirmation throws through io_service::poll, and
-- nothing between it and main catches that.
pub data Outcome (A : Type 0) : Type 0 where
  returned : A → Outcome A
  -- The exception leaves the call. In a destructor it ends the program at once; main catches it
  -- nowhere, so the program ends in any case.
  thrown : Outcome A
  -- The fuel of a loop has run out.
  unfinished : Outcome A

infixl 5 ◌>>=◌
unfoldable pub ◌>>=◌ : {A B : Type 0} → Outcome A → (A → Outcome B) → Outcome B
◌>>=◌ m k = elim m [ returned a ↦ k a | thrown ↦ thrown | unfinished ↦ unfinished ]

-- What is made of each of the three ends.
unfoldable pub either : {A B : Type 0} → (A → B) → B → B → Outcome A → B
either f a b (returned x) = f x
either f a b thrown = a
either f a b unfinished = b

-- The call returns what satisfies `P`, or is left by an exception, for which there is a cause; it
-- does not run out of fuel.
abbrev pub Ends : {A : Type 0} → Type 0 → (A → Type 0) → Outcome A → Type 0
Ends Cause P (returned a) = P a
Ends Cause P thrown = Cause
Ends Cause P unfinished = ⊥

pub Ends-bind :
    {A B : Type 0} (Cause : Type 0) (P : A → Type 0) (Q : B → Type 0) (m : Outcome A)
    (k : A → Outcome B)
    → Ends Cause P m
    → ((a : A) → P a → Ends Cause Q (k a))
    → Ends Cause Q (m >>= k)
unfolding ◌>>=◌
Ends-bind Cause P Q (returned a) k h f = f a h
Ends-bind Cause P Q thrown k h f = h
Ends-bind Cause P Q unfinished k h f = elim h [ ]

pub Ends-map :
    {A : Type 0} (Cause : Type 0) (P Q : A → Type 0) (m : Outcome A)
    → Ends Cause P m
    → ((a : A) → P a → Q a)
    → Ends Cause Q m
Ends-map Cause P Q (returned a) h f = f a h
Ends-map Cause P Q thrown h f = h
Ends-map Cause P Q unfinished h f = elim h [ ]
