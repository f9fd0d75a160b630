-- ===== src/Meter/Data/Laws.antt =====
-- Sizes of the texts, and what a GET answers after a SET.
use native.Mathlib.Nat.{pow-le-pow_right}
use dlms_access_point.Prelude.{
  get_elem?-cases, ℕ, ◌==◌, if◌then◌else◌, length, get_elem?, length-append, Text, codes, zero, suc,
  ◌+◌, ◌*◌, ◌%◌, ◌^◌, ◌≤◌, ◌<◌, ◌≡◌, refl, ap, ◌∙◌, ◌⊎◌, some, [], ◌∷◌, ◌++◌, arith, Option-cases,
  length-set, get_elem?-set_self, get_elem?-set_ne, inl, inr, none,
}
use dlms_access_point.Meter.Cosem.{Library, DataAccessResult, type_unmatched, string}
use dlms_access_point.Meter.Data.{
  Data, fill_value, new, internal_get, taken, internal_set, write_copies, fill_values,
}

length-write_copies :
    (index n : ℕ) (out : Text) → length (write_copies index n out) ≡ length out + n * 10
unfolding write_copies
length-write_copies index zero out = omega arith
length-write_copies index (suc n) out =
    let copy = codes "LINUXDATA" ++ (b'0' + index) ∷ [] in
    omega (arith, length-write_copies index n (out ++ copy), length-append out copy)

length-fill_values : (index n : ℕ) → length (fill_values index n) ≡ n
unfolding fill_values
length-fill_values index zero = refl
length-fill_values index (suc n) = omega (arith, length-fill_values (index + 1) n)

pub length-new : length new.values ≡ 10
unfolding new
length-new = length-fill_values 0 10

get_elem?-fill_values :
    (index n i : ℕ) → i < n → get_elem? (fill_values index n) i ≡ some (fill_value (index + i))
unfolding fill_values
get_elem?-fill_values index zero i h = absurd (omega arith)
get_elem?-fill_values index (suc n) zero h = ap (λ k. some (fill_value k)) (omega arith)
get_elem?-fill_values index (suc n) (suc i) h =
    get_elem?-fill_values (index + 1) n i (omega arith)
    ∙ ap (λ k. some (fill_value k)) (omega arith)

pow-lt-10 : (i : ℕ) → i < 10 → 2 ^ i ≤ 512
pow-lt-10 i h = pow-le-pow_right {n = 2} (omega arith) {i = i} {j = 9} (omega arith)

length-fill_value : (i : ℕ) → i < 10 → length (fill_value i) ≡ 40 * 2 ^ i
unfolding fill_value
length-fill_value i h = omega (arith, length-write_copies i (4 * 2 ^ i % 2 ^ 32) [], pow-lt-10 i h)

module _ (lib : Library) where
  open lib use {Vector, BitSet}

  pub internal_get-in_range :
      (d : Data) (e : ℕ)
      → e < length d.values
      → (v : Text) × (internal_get lib d e ≡ some (DataAccessResult.success, string v))
        × (get_elem? d.values e ≡ some v)
  unfolding internal_get
  internal_get-in_range d e h = elim (get_elem?-cases d.values e) [
    | inl (le, n) ↦ absurd (omega arith)
    | inr (lt, (v, s)) ↦ (v, rw (s, internal_get), s)
  ]

  -- A new meter answers a GET of each of its ten instances with a text of 40 * 2 ^ e bytes.
  pub internal_get-new :
      (e : ℕ)
      → e < 10
      → (v : Text) × (internal_get lib new e ≡ some (DataAccessResult.success, string v))
        × (length v ≡ 40 * 2 ^ e)
  unfolding internal_get new
  internal_get-new e h =
      (fill_value e, ground (arith, get_elem?-fill_values 0 10 e h), length-fill_value e h)

  -- A SET of an instance in range answers success or type_unmatched. On success, a GET of that
  -- instance answers the text that the library read, and one of any other instance answers as
  -- before; on type_unmatched nothing changes.
  pub internal_get-internal_set :
      (d : Data) (attr e j : ℕ) (value : Vector)
      → e < length d.values
      → let r = internal_set lib d attr e value in
        ((r.0 ≡ DataAccessResult.success)
          × ((v : Text) × (taken lib attr value ≡ some (some v))
              × (internal_get lib r.1 j ≡ (
                  if e == j
                  then some (DataAccessResult.success, string v)
                  else internal_get lib d j))))
        ⊎ ((r.0 ≡ type_unmatched) × (r.1 ≡ d))
  unfolding internal_set internal_get
  internal_get-internal_set d attr e j value h = elim (Option-cases (taken lib attr value)) [
    | inl n ↦ rw (n, internal_set) (inr (refl, refl))
    | inr (none, s) ↦ rw (s, internal_set) (inr (refl, refl))
    | inr (some v, s) ↦
        rw (s, internal_set)
          (inl (
            refl,
            (
              v,
              refl,
              ground (arith, get_elem?-set_self d.values e v h, get_elem?-set_ne d.values e j v),
            ),
          ))
  ]

  -- No SET changes how many instances there are.
  pub length-internal_set :
      (d : Data) (attr e : ℕ) (value : Vector)
      → length (internal_set lib d attr e value).1.values ≡ length d.values
  unfolding internal_set
  length-internal_set d attr e value = elim (Option-cases (taken lib attr value)) [
    | inl n ↦ rw (n, internal_set)
    | inr (some v, s) ↦ rw (s, internal_set) (length-set d.values e v)
    | inr (none, s) ↦ rw (s, internal_set)
  ]
