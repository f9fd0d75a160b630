-- ===== src/Client/Callbacks/Laws.antt =====
-- The three programs' engines beside each other, and the access point's `recent` over a history.
use dlms_access_point.Prelude.{
  sym, ◌∙◌, ℕ, ◌==◌, ◌≡◌, Bool, true, ◌&&◌, not, arith, refl, ap, List, [], ◌∷◌, All,
}
use dlms_access_point.Client.Confirm.{
  Codec, Engine, Confirmed, answered, threw, GetResponse, trace, on_get_confirmation,
  hes_on_get_confirmation, clsid_iassociation_ln, attr_obj_list, harness_on_get_confirmation,
}
use dlms_access_point.Client.Callbacks.{
  on_event, Event, got, opened, has_set, has_acted, released, released_by, aborted, ap_on_event,
  hes_on_event, harness_on_event, continue, run,
}

-- Two callbacks end alike: with one answer, or both by an exception, and with one trace.
pub SameEnd : Confirmed → Confirmed → Type 0
SameEnd (answered a e) (answered b f) = (a ≡ b) × (e.traced ≡ f.traced)
SameEnd (answered a e) (threw f) = ⊥
SameEnd (threw e) (answered b f) = ⊥
SameEnd (threw e) (threw f) = e.traced ≡ f.traced

module _ (codec : Codec) where
  -- Not the confirmation of a GET of the list of objects.
  unfoldable pub no_objects : Event codec → Bool
  no_objects (got token r) =
      not (r.class_id == clsid_iassociation_ln && r.attribute_id == attr_obj_list)
  no_objects v = true

  get-SameEnd :
      (e f : Engine) (token : ℕ) (r : GetResponse codec)
      → e.traced ≡ f.traced
      → SameEnd (on_get_confirmation codec e token r) (hes_on_get_confirmation codec f token r)
  unfolding on_get_confirmation hes_on_get_confirmation SameEnd trace
  get-SameEnd e f token r h = ground arith

  harness-SameEnd :
      (e f : Engine) (token : ℕ) (r : GetResponse codec)
      → e.traced ≡ f.traced
      → no_objects (got token r) ≡ true
      → SameEnd
          (harness_on_get_confirmation codec e token r)
          (hes_on_get_confirmation codec f token r)
  unfolding harness_on_get_confirmation hes_on_get_confirmation SameEnd trace no_objects
  harness-SameEnd e f token r h n = ground arith

  -- What the programs share keeps two engines alike where their own confirmations do.
  on_event-SameEnd :
      (g k : Engine → ℕ → GetResponse codec → Confirmed) (e f : Engine) (v : Event codec)
      → e.traced ≡ f.traced
      → ((token : ℕ) (r : GetResponse codec)
          → v ≡ got token r
          → SameEnd (g e token r) (k f token r))
      → SameEnd (on_event codec g e v) (on_event codec k f v)
  unfolding on_event SameEnd trace
  on_event-SameEnd g k e f (got token r) h same = same token r refl
  on_event-SameEnd g k e f (opened address) h same = ground arith
  on_event-SameEnd g k e f (has_set token r) h same = ground arith
  on_event-SameEnd g k e f (has_acted token r) h same = ground arith
  on_event-SameEnd g k e f released h same = ground arith
  on_event-SameEnd g k e f (released_by address) h same = ground arith
  on_event-SameEnd g k e f (aborted address) h same = ground arith

  ap-SameEnd :
      (e f : Engine) (v : Event codec)
      → e.traced ≡ f.traced
      → SameEnd (ap_on_event codec e v) (hes_on_event codec f v)
  unfolding ap_on_event hes_on_event
  ap-SameEnd e f v h =
      on_event-SameEnd (on_get_confirmation codec) (hes_on_get_confirmation codec) e f v h
        (λ token r s. get-SameEnd e f token r h)

  harness_on_event-SameEnd :
      (e f : Engine) (v : Event codec)
      → e.traced ≡ f.traced
      → no_objects v ≡ true
      → SameEnd (harness_on_event codec e v) (hes_on_event codec f v)
  unfolding harness_on_event hes_on_event
  harness_on_event-SameEnd e f v h n =
      on_event-SameEnd (harness_on_get_confirmation codec) (hes_on_get_confirmation codec) e f v h
        (λ token r s. harness-SameEnd e f token r h (ap no_objects (sym s) ∙ n))

  -- Two runs with one trace, one list of answers, and one end.
  abbrev pub SameRun : Engine × List Bool × Bool → Engine × List Bool × Bool → Type 0
  SameRun a b = (a.0.traced ≡ b.0.traced) × (a.1 ≡ b.1) × (a.2 ≡ b.2)

  continue-SameRun :
      (c d : Confirmed) (rest rest' : Engine → Engine × List Bool × Bool)
      → SameEnd c d
      → ((e f : Engine) → e.traced ≡ f.traced → SameRun (rest e) (rest' f))
      → SameRun (continue codec c rest) (continue codec d rest')
  unfolding continue SameEnd
  continue-SameRun (answered a e) (answered b f) rest rest' (same, h) k =
      let (t, answers, finished) = k e f h in
      (t, ap (λ x. x ∷ (rest e).1) same ∙ ap (λ l. b ∷ l) answers, finished)
  continue-SameRun (answered a e) (threw f) rest rest' h k = elim h [ ]
  continue-SameRun (threw e) (answered b f) rest rest' h k = elim h [ ]
  continue-SameRun (threw e) (threw f) rest rest' h k = (h, refl, refl)

  run-SameRun :
      (e f : Engine) (vs : List (Event codec))
      → e.traced ≡ f.traced
      → SameRun (run codec (ap_on_event codec) e vs) (run codec (hes_on_event codec) f vs)
  unfolding run
  run-SameRun e f [] h = (h, refl, refl)
  run-SameRun e f (v ∷ vs) h =
      continue-SameRun (ap_on_event codec e v) (hes_on_event codec f v)
        (λ e'. run codec (ap_on_event codec) e' vs) (λ f'. run codec (hes_on_event codec) f' vs)
        (ap-SameEnd e f v h) (λ e' f' h'. run-SameRun e' f' vs h')

  harness-SameRun :
      (e f : Engine) (vs : List (Event codec))
      → e.traced ≡ f.traced
      → All (λ v. no_objects v ≡ true) vs
      → SameRun (run codec (harness_on_event codec) e vs) (run codec (hes_on_event codec) f vs)
  unfolding run
  harness-SameRun e f [] h n = (h, refl, refl)
  harness-SameRun e f (v ∷ vs) h (n, ns) =
      continue-SameRun (harness_on_event codec e v) (hes_on_event codec f v)
        (λ e'. run codec (harness_on_event codec) e' vs)
        (λ f'. run codec (hes_on_event codec) f' vs) (harness_on_event-SameEnd e f v h n)
        (λ e' f' h'. harness-SameRun e' f' vs h' ns)

  -- The three programs' engines, told the same by the library, trace the same, answer the same and
  -- throw at the same call, if no confirmation is of a GET of the association's list of objects.
  pub run-programs :
      (e f g : Engine) (vs : List (Event codec))
      → e.traced ≡ f.traced
      → g.traced ≡ f.traced
      → All (λ v. no_objects v ≡ true) vs
      → SameRun (run codec (ap_on_event codec) e vs) (run codec (hes_on_event codec) f vs)
        × SameRun (run codec (harness_on_event codec) g vs) (run codec (hes_on_event codec) f vs)
  run-programs e f g vs h k n = (run-SameRun e f vs h, harness-SameRun g f vs k n)
