-- ===== src/System/Sample.antt =====
-- A small parser and server in the library's place: an instance is the list of the numbers in a
-- text.
use dlms_access_point.Prelude.{
  sym, append-nil, get_elem?, ℕ, leb, ltb, Text, zero, suc, true, false, ◌&&◌, ◌+◌, ◌-◌, ◌*◌, ◌/◌,
  ◌%◌, ◌<◌, ◌≡◌, ap, ◌∙◌, inl, inr, Bool-cases, List, [], ◌∷◌, ◌++◌, arith, ◌==◌, if◌then◌else◌,
  codes, refl, Bool, Option, none, some,
}
use dlms_access_point.Client.Sample as ClientSample
use dlms_access_point.Console.Number.{to_string, to_digits}
use dlms_access_point.Client.Library.{Library}
use dlms_access_point.Meter.Sample.{sample_library}
use dlms_access_point.Meter.Cosem.{ActionResult, returned, temporary_failure, object_unavailable}
use dlms_access_point.Meter.Clock.{Tm, standard}
use dlms_access_point.Meter.Device.{Object, Criteria, Server, Request, gets, sets, acts}
use dlms_access_point.System.Obis.{obis}
use dlms_access_point.System.Service.{is_within, Parses, Finds, first_match}

abbrev pub numbers : ℕ → Text → List ℕ
numbers v [] = v ∷ []
numbers v (c ∷ s) = elim (leb b'0' c && leb c b'9') [
  | true ↦ numbers (v * 10 + (c - b'0')) s
  | false ↦ v ∷ numbers 0 s
]

numbers-digit : (v d : ℕ) (s : Text) → d < 10 → numbers v ((b'0' + d) ∷ s) ≡ numbers (v * 10 + d) s
numbers-digit v d s h = ground arith

numbers-to_digits :
    (fuel n : ℕ) (acc rest : Text)
    → n < fuel
    → numbers 0 (to_digits fuel n acc ++ rest) ≡ numbers n (acc ++ rest)
unfolding to_digits
numbers-to_digits zero n acc rest h = absurd (omega arith)
numbers-to_digits (suc fuel) n acc rest h = elim (Bool-cases (ltb n 10)) [
  | inl e ↦
      let one : 0 * 10 + n % 10 ≡ n = ground arith in
      rw (e, to_digits) (numbers-digit 0 (n % 10) (acc ++ rest) (omega arith))
      ∙ ap (λ m. numbers m (acc ++ rest)) one
  | inr e ↦
      let all : n / 10 * 10 + n % 10 ≡ n = omega arith in
      rw (e, to_digits)
        (numbers-to_digits fuel (n / 10) ((b'0' + n % 10) ∷ acc) rest (ground arith))
      ∙ numbers-digit (n / 10) (n % 10) (acc ++ rest) (omega arith)
      ∙ ap (λ m. numbers m (acc ++ rest)) all
]

numbers-to_string : (n : ℕ) (rest : Text) → numbers 0 (to_string n ++ rest) ≡ numbers n rest
unfolding to_string
numbers-to_string n rest = numbers-to_digits (suc n) n [] rest (omega arith)

numbers-obis : (a b c d e f : ℕ) → numbers 0 (obis a b c d e f) ≡ a ∷ b ∷ c ∷ d ∷ e ∷ f ∷ []
numbers-obis a b c d e f =
    let last = ap (numbers 0) (sym (append-nil (to_string f))) ∙ numbers-to_string f [] in
    let t5 = to_string e ++ b'*' ∷ to_string f in
    let t4 = to_string d ++ b'.' ∷ t5 in
    let t3 = to_string c ++ b'.' ∷ t4 in
    let t2 = to_string b ++ b':' ∷ t3 in
    numbers-to_string a (b'-' ∷ t2)
    ∙ ap (λ l. a ∷ l)
        (numbers-to_string b (b':' ∷ t3)
          ∙ ap (λ l. b ∷ l)
              (numbers-to_string c (b'.' ∷ t4)
                ∙ ap (λ l. c ∷ l)
                    (numbers-to_string d (b'.' ∷ t5)
                      ∙ ap (λ l. d ∷ l)
                          (numbers-to_string e (b'*' ∷ to_string f) ∙ ap (λ l. e ∷ l) last))))

abbrev pub number_client : Library
number_client = record ClientSample.sample_library {
  Oid = List ℕ;
  parse = λ t. some (numbers 0 t);
  get = λ d e. (e, some d.class_id);
  set = λ d v e. (e, some 2);
  action = λ d v e. (e, none);
}

abbrev pub group_of : List ℕ → ℕ → ℕ
group_of id i = elim (get_elem? id i) [ none ↦ 0 | some v ↦ v ]

abbrev pub match_range : List (ℕ × ℕ) → List ℕ → ℕ → Bool
match_range [] id i = true
match_range ((low, high) ∷ groups) id i =
    leb low (group_of id i) && leb (group_of id i) high && match_range groups id (i + 1)

abbrev pub match_object : List (Object × Criteria) → ℕ → List ℕ → Option Object
match_object [] class_id id = none
match_object ((o, k) ∷ ks) class_id id =
    if k.class_id == class_id && match_range k.groups id 0
    then some o
    else match_object ks class_id id

abbrev pub number_server : Server sample_library (List ℕ)
number_server = record {
  value_group = group_of;
  find = match_object;
  other_get = λ c a id. (object_unavailable, none);
  other_set = λ c a id v. temporary_failure;
  other_action = λ c m id p. returned ActionResult.object_unavailable;
}

pub number_client-Parses : Parses number_client sample_library number_server
number_client-Parses a b c d e f la lb lc ld le lf = (
  numbers 0 (obis a b c d e f),
  refl,
  rw (numbers-obis a b c d e f) (refl, refl, refl, refl, refl, refl),
)

match_range-is_within :
    (groups : List (ℕ × ℕ)) (id : List ℕ) (i : ℕ)
    → match_range groups id i ≡ is_within number_client sample_library number_server i groups id
unfolding is_within
match_range-is_within [] id i = refl
match_range-is_within ((low, high) ∷ groups) id i =
    ap (λ b. leb low (group_of id i) && leb (group_of id i) high && b)
      (match_range-is_within groups id (i + 1))

pub number_server-Finds : Finds number_client sample_library number_server
unfolding first_match
number_server-Finds [] class_id id = refl
number_server-Finds ((o, k) ∷ ks) class_id id =
    rw (match_range-is_within k.groups id 0, number_server-Finds ks class_id id)

abbrev pub noon : Tm
noon = record {
  tm_year = 119;
  tm_mon = 5;
  tm_mday = 30;
  tm_wday = 0;
  tm_hour = 12;
  tm_min = 0;
  tm_sec = 0;
  tm_isdst = standard;
}

-- A reading, a disconnect, and a new text for the data.
abbrev pub history : List (Request sample_library number_server)
history =
    gets 8 2 (0 ∷ 0 ∷ 1 ∷ 0 ∷ 0 ∷ 255 ∷ [])
    ∷ acts 70 1 (0 ∷ 0 ∷ 96 ∷ 3 ∷ 10 ∷ 255 ∷ []) none
    ∷ sets 1 2 (0 ∷ 0 ∷ 96 ∷ 1 ∷ 4 ∷ 255 ∷ []) (codes "new")
    ∷ []
