-- ===== src/Hes/Registration/Laws.antt =====
-- The set of registered meters, and its way to the access point.
use dlms_access_point.Prelude.{
  Bool-cases, All, Text, text_eq, ◌≡◌, refl, inl, inr, Bool, true, false, ◌||◌, some, List, [], ◌∷◌,
  arith,
}
use dlms_access_point.Hes.Registration.{insert, text_lt, register_all}
use dlms_access_point.Ap.Config.{Config, interpret}
use dlms_access_point.Ap.Config.RoundTrip.{IsName, from_hes, interpret-meterset}
use dlms_access_point.Hes.Message
use dlms_access_point.Hes.Message.{meterset}

pub contains : List Text → Text → Bool
contains [] j = false
contains (x ∷ xs) j = text_eq x j || contains xs j

-- Strictly increasing, from a first element on.
abbrev Chain : Text → List Text → Type 0
Chain x [] = Unit
Chain x (y ∷ ys) = (text_lt x y ≡ true) × Chain y ys

abbrev pub Ordered : List Text → Type 0
Ordered [] = Unit
Ordered (x ∷ xs) = Chain x xs

insert-Chain :
    (k x : Text) (xs : List Text) → text_lt x k ≡ true → Chain x xs → Chain x (insert k xs)
unfolding insert
insert-Chain k x [] h c = (h, tt)
insert-Chain k x (y ∷ ys) h c = ground (arith, insert-Chain k y ys)

insert-Ordered : (k : Text) (xs : List Text) → Ordered xs → Ordered (insert k xs)
unfolding insert
insert-Ordered k [] o = tt
insert-Ordered k (x ∷ xs) o = ground (arith, insert-Chain k x xs)

text_lt_total : (a b : Text) → text_lt a b ≡ false → text_lt b a ≡ false → a ≡ b
unfolding text_lt
text_lt_total [] [] h k = refl
text_lt_total [] (d ∷ t) h k = ground arith
text_lt_total (c ∷ s) [] h k = ground arith
text_lt_total (c ∷ s) (d ∷ t) h k = ground (arith, text_lt_total s t)

contains-insert :
    (k j : Text) (xs : List Text) → contains (insert k xs) j ≡ (text_eq k j || contains xs j)
unfolding insert contains
contains-insert k j [] = refl
contains-insert k j (x ∷ xs) = ground (arith, contains-insert k j xs, text_lt_total k x)

All-insert {ℓ} :
    (P : Text → Type ℓ) (k : Text) (xs : List Text) → P k → All P xs → All P (insert k xs)
unfolding insert
All-insert P k [] h hs = (h, tt)
All-insert P k (x ∷ xs) h hs = elim (Bool-cases (text_lt k x)) [
  | inl e ↦ rw e (h, hs)
  | inr e ↦ elim (Bool-cases (text_lt x k)) [
    | inl f ↦ rw (e, f) (hs.0, All-insert P k xs h hs.1)
    | inr f ↦ rw (e, f) hs
  ]
]

-- Whatever meters connect, and however often and in whatever order, the registered addresses are
-- strictly increasing, and an address is registered exactly if it was before or a meter connected
-- from it.
register_all-Ordered :
    (meters remotes : List Text) (j : Text)
    → Ordered meters
    → Ordered (register_all meters remotes)
      × (contains (register_all meters remotes) j ≡ (contains meters j || contains remotes j))
unfolding register_all contains
register_all-Ordered meters [] j o = (o, ground arith)
register_all-Ordered meters (remote ∷ remotes) j o =
    let (ordered, members) =
      register_all-Ordered (insert remote meters) remotes j (insert-Ordered remote meters o) in
    (ordered, ground (arith, members, contains-insert remote j meters))

register_all-All {ℓ} :
    (P : Text → Type ℓ) (meters remotes : List Text)
    → All P meters
    → All P remotes
    → All P (register_all meters remotes)
unfolding register_all
register_all-All P meters [] h hs = h
register_all-All P meters (remote ∷ remotes) h hs =
    register_all-All P (insert remote meters) remotes (All-insert P remote meters hs.0 h) hs.1

-- The whole way of a registration: after the head-end system has sent its message, the access point
-- reads exactly the meters that have connected to the head-end system, each once, in the order of
-- their addresses, and with the payload size that is set there, if every address is printable, not
-- empty and without a comma.
pub interpret-register_all :
    (c : Config) (size : Message.Payload) (remotes : List Text) (j : Text)
    → All IsName remotes
    → let c' = interpret c (meterset size (register_all [] remotes)) in
      (c'.payload_size ≡ some (from_hes size))
      × Ordered c'.meters
      × (contains c'.meters j ≡ contains remotes j)
unfolding contains
interpret-register_all c size remotes j hs =
    let (ordered, members) = register_all-Ordered [] remotes j tt in
    rw
      (interpret-meterset c size (register_all [] remotes)
        (register_all-All IsName [] remotes tt hs))
      (refl, ordered, members)
