-- ===== src/Console/Machine.antt =====
-- The handlers of the menus as computations on a state: each returns, or stops the program.
use dlms_access_point.Prelude.{◌≡◌, refl, ◌⊎◌, inl, inr}

-- `exit(0)`; the end of the input, where a question throws and a menu waits for ever; a call through a null pointer; and a
-- request to an object whose socket has been removed.
pub data Stop : Type 0 where
  exited end_of_input null_pointer released_socket : Stop

pub data Outcome (S A : Type 0) : Type 0 where
  returned : A → S → Outcome S A
  stopped : Stop → S → Outcome S A

abbrev pub M : Type 0 → Type 0 → Type 0
M S A = S → Outcome S A

infixl 5 ◌>>=◌ ◌>>◌
unfoldable pub ◌>>=◌ : {S A B : Type 0} → M S A → (A → M S B) → M S B
◌>>=◌ m k s = elim (m s) [ returned a s' ↦ k a s' | stopped stop s' ↦ stopped stop s' ]

abbrev pub ◌>>◌ : {S B : Type 0} → M S (Unit {0}) → M S B → M S B
m >> k = m >>= λ _. k

abbrev pub pure : {S A : Type 0} → A → M S A
pure a s = returned a s

-- The outcome is no null pointer and no removed socket, and what is returned satisfies `P`.
abbrev pub Safe : {S A : Type 0} → (A → S → Type 0) → Outcome S A → Type 0
Safe P (returned a s) = P a s
Safe P (stopped exited s) = Unit
Safe P (stopped end_of_input s) = Unit
Safe P (stopped null_pointer s) = ⊥
Safe P (stopped released_socket s) = ⊥

-- A computation has returned or stopped.
Outcome-cases :
    {S A : Type 0} (o : Outcome S A)
    → ((a : A) × (s : S) × (o ≡ returned a s)) ⊎ ((stop : Stop) × (s : S) × (o ≡ stopped stop s))
Outcome-cases (returned a s) = inl (a, s, refl)
Outcome-cases (stopped stop s) = inr (stop, s, refl)

pub bind_assoc :
    {S A B C : Type 0} (m : M S A) (f : A → M S B) (k : B → M S C) (s : S)
    → ((m >>= f) >>= k) s ≡ (m >>= λ a. f a >>= k) s
unfolding ◌>>=◌
bind_assoc m f k s = elim (Outcome-cases (m s)) [
  | inl (a, s', e) ↦ rw (e, ◌>>=◌) refl
  | inr (stop, s', e) ↦ rw (e, ◌>>=◌) refl
]

pub bind-stopped :
    {S A B : Type 0} (m : M S A) (k : A → M S B) (s s' : S) (stop : Stop)
    → m s ≡ stopped stop s'
    → (m >>= k) s ≡ stopped stop s'
unfolding ◌>>=◌
bind-stopped m k s s' stop e = rw (e, ◌>>=◌) refl

pub bind-returned :
    {S A B : Type 0} (m : M S A) (k : A → M S B) (s s' : S) (a : A)
    → m s ≡ returned a s'
    → (m >>= k) s ≡ k a s'
unfolding ◌>>=◌
bind-returned m k s s' a e = rw (e, ◌>>=◌) refl
