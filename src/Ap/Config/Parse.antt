-- ===== src/Ap/Config/Parse.antt =====
-- The loop of the constructor against a recursion on the text, and what it reads and refuses.
use dlms_access_point.Prelude.{
  ℕ, ◌==◌, if◌then◌else◌, length, Text, zero, suc, ◌≤◌, ◌<◌, ◌≡◌, some, List, [], ◌∷◌, ◌++◌,
  append-nil, arith, codes, refl, ap, ◌∙◌, ◌⊎◌, inl, inr, none, append_assoc, ==_iff, Bool-cases,
  text_eq_sound, Option-cases, sym,
}
use dlms_access_point.Ap.Config.{
  cut, getline, read_items, Payload, small, medium, large, Made, made, range_error, all_of_isprint,
  finish, construct, payload_of, Config,
}

-- A character before the first item.
abbrev push : ℕ → List Text → List Text
push c [] = (c ∷ []) ∷ []
push c (item ∷ items) = (c ∷ item) ∷ items

-- The items between commas. A comma ends an item, so a text that ends in a comma has no empty item
-- behind it.
unfoldable pub split : Text → List Text
split [] = []
split (c ∷ s) = if c == b',' then [] ∷ split s else push c (split s)

-- Every item behind a comma of its own.
unfoldable pub separated : List Text → Text
separated [] = []
separated (item ∷ items) = b',' ∷ (item ++ separated items)

cut-lt : (c : ℕ) (s : Text) → length (cut (c ∷ s)).1 ≤ length s
unfolding cut
cut-lt c [] = ground arith
cut-lt c (d ∷ s) = ground (arith, cut-lt d s)

cut-split : (c : ℕ) (s : Text) → split (c ∷ s) ≡ (cut (c ∷ s)).0 ∷ split (cut (c ∷ s)).1
unfolding cut split
cut-split c [] = ground arith
cut-split c (d ∷ s) = ground (arith, cut-split d s)

read_items-split :
    (fuel : ℕ) (s : Text) (items : List Text)
    → length s < fuel
    → read_items fuel s items ≡ some (items ++ split s)
unfolding read_items getline
read_items-split zero s items h = absurd (omega arith)
read_items-split (suc fuel) [] items h = unfold split in rw append-nil
read_items-split (suc fuel) (c ∷ s) items h =
    let (item, rest) = cut (c ∷ s) in
    rw (cut-split c s) (
      read_items-split fuel rest (items ++ item ∷ []) (omega (arith, cut-lt c s))
      ∙ ap some (append_assoc items (item ∷ []) (split rest)))

-- The constructor without its loop.
unfoldable pub parse : Text → Made
unfolding cut
parse [] = made (record { payload_size = none; meters = [] })
parse (c ∷ s) =
    let (plsize, rest) = cut (c ∷ s) in
    if all_of_isprint (c ∷ s)
    then finish plsize (some (split rest))
    else range_error (codes "invalid string")

pub construct-parse : (s : Text) → construct s ≡ parse s
unfolding construct parse getline
construct-parse [] = unfold all_of_isprint in refl
construct-parse (c ∷ s) =
    let rest = (cut (c ∷ s)).1 in rw (read_items-split (suc (length rest)) rest [] (omega arith))

unfoldable pub size_name : Payload → Text
size_name small = codes "small"
size_name medium = codes "medium"
size_name large = codes "large"

-- How a configuration is written.
unfoldable pub print : Payload → List Text → Text
unfolding size_name
print p items = size_name p ++ separated items

-- Where the first item ends.
cut_lem : (s : Text) → ((s ≡ (cut s).0) × ((cut s).1 ≡ [])) ⊎ (s ≡ (cut s).0 ++ (b',' ∷ (cut s).1))
unfolding cut
cut_lem [] = inl (refl, refl)
cut_lem (c ∷ s) = ground (arith, cut_lem s)

-- A text whose comma-led form is that of the items, but for one comma too many at its end.
abbrev Spells : Text → List Text → Type 0
Spells s items = (s ≡ separated items) ⊎ (s ≡ separated items ++ b',' ∷ [])

push-Spells :
    (c : ℕ) (s : Text) (items : List Text)
    → Spells (b',' ∷ s) items
    → Spells (b',' ∷ (c ∷ s)) (push c items)
unfolding separated
push-Spells c s [] (inl h) = absurd (ground arith)
push-Spells c s [] (inr h) = inl (ground arith)
push-Spells c s (item ∷ items) (inl h) = inl (ground arith)
push-Spells c s (item ∷ items) (inr h) = inr (ground arith)

split-Spells : (s : Text) → Spells (b',' ∷ s) (split s)
unfolding split
split-Spells [] = unfold separated in inr refl
split-Spells (c ∷ s) = elim (Bool-cases (c == b',')) [
  | inl e ↦ rw (e, (==_iff c b',').0 e) (comma_first (split-Spells s))
  | inr e ↦ rw e (push-Spells c s (split s) (split-Spells s))
]
  where
    comma_first : Spells (b',' ∷ s) (split s) → Spells (b',' ∷ (b',' ∷ s)) ([] ∷ split s)
    comma_first (inl h) = unfold separated in inl (ap (◌∷◌ b',') h)
    comma_first (inr h) = unfold separated in inr (ap (◌∷◌ b',') h)

payload_of_sound : (t : Text) (p : Payload) → payload_of t ≡ some p → t ≡ size_name p
unfolding payload_of size_name
payload_of_sound t p h = ground (
  arith,
  text_eq_sound t (codes "small"),
  text_eq_sound t (codes "medium"),
  text_eq_sound t (codes "large"),
)

payload_of-size_name : (p : Payload) → payload_of (size_name p) ≡ some p
unfolding payload_of size_name
payload_of-size_name small = refl
payload_of-size_name medium = refl
payload_of-size_name large = refl

-- The payload size and the meters of a configuration, if it has a payload size, and the text that
-- it was read from.
abbrev pub Reads : Text → Config → Type 0
Reads s c =
    ((s ≡ []) × (c.payload_size ≡ none) × (c.meters ≡ []))
    ⊎ ((p : Payload) × (c.payload_size ≡ some p)
        × ((s ≡ print p c.meters) ⊎ (s ≡ print p c.meters ++ b',' ∷ [])))

join-Spells :
    (plsize rest : Text) (p : Payload)
    → plsize ≡ size_name p
    → (plsize ++ (b',' ∷ rest) ≡ print p (split rest))
      ⊎ (plsize ++ (b',' ∷ rest) ≡ print p (split rest) ++ b',' ∷ [])
unfolding print
join-Spells plsize rest p e = elim (split-Spells rest) [
  | inl h ↦ inl (rw (h, e))
  | inr h ↦ inr (rw (h, e) (sym (append_assoc (size_name p) (separated (split rest)) (b',' ∷ []))))
]

finish_sound :
    (s plsize rest : Text) (c : Config)
    → ((s ≡ plsize) × (rest ≡ [])) ⊎ (s ≡ plsize ++ (b',' ∷ rest))
    → finish plsize (some (split rest)) ≡ made c
    → Reads s c
unfolding finish
finish_sound s plsize rest c spelled h = elim (Option-cases (payload_of plsize)) [
  | inl n ↦ absurd (ground arith)
  | inr (p, e) ↦
      let size = payload_of_sound plsize p e in
      let is : c ≡ record { payload_size = some p; meters = split rest } = ground arith in
      rw is (
        inr (
          p,
          refl,
          elim spelled [
            | inl (whole, nothing) ↦ inl (
                rw (whole, size, nothing)
                  (unfold print split separated in sym (append-nil (size_name p))))
            | inr whole ↦ rw whole (join-Spells plsize rest p size)
          ],
        ))
]

-- The constructor accepts a text only if it is the payload size and the meters that it stores, each
-- meter behind a comma, with at most one more comma at the end; or the empty text, after which the
-- payload size is not initialised.
pub construct_sound : (s : Text) (c : Config) → construct s ≡ made c → Reads s c
construct_sound s c h = parse_sound s c (rw construct-parse at h)
  where
    parse_sound : (s : Text) (c : Config) → parse s ≡ made c → Reads s c
    parse_sound [] c h = unfold parse in inl (ground arith)
    parse_sound (x ∷ s) c h =
        unfold parse in
        finish_sound (x ∷ s) (cut (x ∷ s)).0 (cut (x ∷ s)).1 c (cut_lem (x ∷ s)) (ground arith)
