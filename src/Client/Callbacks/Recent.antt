-- ===== src/Client/Callbacks/Recent.antt =====
-- The access point's `recent` over a history of callbacks.
use dlms_access_point.Prelude.{
  take, length, map, ◌==◌, if◌then◌else◌, Text, ◌≡◌, Bool, true, ◌&&◌, not, Option, none, some,
  List, [], ◌∷◌, arith, refl, ap, ◌∙◌,
}
use dlms_access_point.Client.Confirm.{
  Codec, Engine, Confirmed, answered, threw, Result, access_result, vector, is_access_result, trace,
  on_get_confirmation, clsid_idata,
}
use dlms_access_point.Client.Callbacks.{
  on_event, Event, opened, got, has_set, has_acted, released, released_by, aborted, ap_on_event,
  run, continue,
}

module _ (codec : Codec) where
  open codec use {Vector, Value}

  text_in : Result codec → Option Text
  text_in (access_result n) = none
  text_in (vector v) = elim (codec.next_value v) [ none ↦ none | some x ↦ codec.visible_string x ]

  -- The text that the confirmation of a GET of class 1 carries.
  unfoldable pub carried : Event codec → Option Text
  unfolding text_in
  carried (got token r) = if r.class_id == clsid_idata then text_in r.result else none
  carried v = none

  -- Not a confirmation that reports an access error.
  pub accepts : Event codec → Bool
  accepts (got token r) = not (r.result_valid && is_access_result codec r.result)
  accepts v = true

  newer : Text → Option Text → Text
  newer old none = old
  newer old (some t) = t

  -- The last text that is carried.
  unfoldable pub latest : Text → List (Event codec) → Text
  unfolding newer
  latest recent [] = recent
  latest recent (v ∷ vs) = latest (newer recent (carried v)) vs

  Told : Text → Event codec → Confirmed → Type 0
  Told old v (answered a e) = (a ≡ accepts v) × (e.recent ≡ newer old (carried v))
  Told old v (threw e) = e.recent ≡ old

  on_event-Told : (e : Engine) (v : Event codec) → Told e.recent v (ap_on_event codec e v)
  unfolding ap_on_event on_event on_get_confirmation Told trace carried accepts newer
  on_event-Told e (got token r) = ground arith
  on_event-Told e (opened address) = ground arith
  on_event-Told e (has_set token r) = ground arith
  on_event-Told e (has_acted token r) = ground arith
  on_event-Told e released = ground arith
  on_event-Told e (released_by address) = ground arith
  on_event-Told e (aborted address) = ground arith

  continue-Told :
      (old : Text) (v : Event codec) (vs : List (Event codec)) (c : Confirmed)
      (rest : Engine → Engine × List Bool × Bool)
      → Told old v c
      → ((e : Engine)
          → let r = rest e in
            (r.0.recent ≡ latest e.recent (take (length r.1) vs))
            × (r.1 ≡ map accepts (take (length r.1) vs)))
      → let r = continue codec c rest in
        (r.0.recent ≡ latest old (take (length r.1) (v ∷ vs)))
        × (r.1 ≡ map accepts (take (length r.1) (v ∷ vs)))
  unfolding continue Told latest
  continue-Told old v vs (answered a e) rest (same, h) k =
      let (recent, answers) = k e in
      (
        recent ∙ ap (λ t. latest t (take (length (rest e).1) vs)) h,
        ap (λ x. x ∷ (rest e).1) same ∙ ap (λ l. accepts v ∷ l) answers,
      )
  continue-Told old v vs (threw e) rest h k = (h, refl)

  -- After any calls of the library, the access point's `recent` is the last text that was carried by
  -- a confirmation of a GET of class 1 before a call that threw, or what it was where there is none;
  -- and the answers up to there are false exactly at the confirmations that report an access error.
  pub run-latest :
      (e : Engine) (vs : List (Event codec))
      → let r = run codec (ap_on_event codec) e vs in
        (r.0.recent ≡ latest e.recent (take (length r.1) vs))
        × (r.1 ≡ map accepts (take (length r.1) vs))
  unfolding run latest
  run-latest e [] = (refl, refl)
  run-latest e (v ∷ vs) =
      continue-Told e.recent v vs (ap_on_event codec e v)
        (λ e'. run codec (ap_on_event codec) e' vs) (on_event-Told e v) (λ e'. run-latest e' vs)
