-- ===== src/Hes/Main/Laws.antt =====
-- What the rounds of the head-end system write to the access point.
use dlms_access_point.Prelude.{
  ℕ, Text, ◌≡◌, refl, true, false, All, List, [], ◌∷◌, ◌++◌, sym, append-nil, ap, ◌∙◌, append_assoc,
}
use dlms_access_point.Client.Library.{Library}
use dlms_access_point.Hes.Message.{meterset}
use dlms_access_point.Hes.Registration.{register_all, insert}
use dlms_access_point.Hes.Main.{
  multi_read, Arrival, Hes, Round, going, interrupted, unfinished, run, round, new,
}

-- The messages of rounds that hand over the meters: each holds the settings of its round and all the
-- meters that have connected until then.
unfoldable pub messages : List Text → List Arrival → List Text
messages known [] = []
messages known (a ∷ later) =
    meterset a.cfg.payload_size (register_all [] (known ++ a.remotes))
    ∷ messages (known ++ a.remotes) later

-- A round that hands over the meters, to an access point that is reached.
abbrev pub HandsOver : Arrival → Type 0
HandsOver a = (a.cfg.route_only ≡ false) × (a.reached ≡ true)

pub register_all-append :
    (meters xs ys : List Text)
    → register_all (register_all meters xs) ys ≡ register_all meters (xs ++ ys)
unfolding register_all
register_all-append meters [] ys = refl
register_all-append meters (x ∷ xs) ys = register_all-append (insert x meters) xs ys

module _ (lib : Library) where
  -- The loop goes on, with these messages written.
  abbrev pub Written : List Text → Round lib → Type 0
  Written texts (going h) = h.written ≡ texts
  Written texts (interrupted h) = ⊥
  Written texts unfinished = ⊥

  -- The loop goes on behind such a round: the engine is as before, the meters are registered, and
  -- the message is written behind the others.
  abbrev pub HandedOver : Hes lib → Arrival → Round lib → Type 0
  HandedOver h a (going h') =
      (h'.engine ≡ h.engine)
      × (h'.meters ≡ register_all h.meters a.remotes)
      × (h'.written
          ≡ h.written ++ meterset a.cfg.payload_size (register_all h.meters a.remotes) ∷ [])
  HandedOver h a (interrupted h') = ⊥
  HandedOver h a unfinished = ⊥

  pub round-HandedOver :
      (fuel : ℕ) (h : Hes lib) (a : Arrival) → HandsOver a → HandedOver h a (round lib fuel h a)
  unfolding round multi_read
  round-HandedOver fuel h a (message, reached) = rw (message, reached) (refl, refl, refl)

  along :
      (texts texts' : List Text) (o : Round lib)
      → texts ≡ texts'
      → Written texts o
      → Written texts' o
  along texts texts' o e w = rw⁻¹ e w

  run-messages :
      (fuel : ℕ) (known : List Text) (h : Hes lib) (later : List Arrival)
      → h.meters ≡ register_all [] known
      → All HandsOver later
      → Written (h.written ++ messages known later) (run lib fuel h later)
  unfolding run messages
  run-messages fuel known h [] e hs = sym (append-nil h.written)
  run-messages fuel known h (a ∷ later) e (now, hs) =
      go (round lib fuel h a) (λ h' e'. run-messages fuel (known ++ a.remotes) h' later e' hs)
        (round-HandedOver fuel h a now)
    where
      go :
          (o : Round lib)
          → ((h' : Hes lib)
              → h'.meters ≡ register_all [] (known ++ a.remotes)
              → Written (h'.written ++ messages (known ++ a.remotes) later) (run lib fuel h' later))
          → HandedOver h a o
          → Written (h.written ++ messages known (a ∷ later)) (elim o [
            | going h' ↦ run lib fuel h' later
            | interrupted h' ↦ interrupted h'
            | unfinished ↦ unfinished
          ])
      go (going h') rest (engine, meters, written) =
          let known' =
            ap (λ m. register_all m a.remotes) e ∙ register_all-append [] known a.remotes in
          along (h'.written ++ messages (known ++ a.remotes) later) _ (run lib fuel h' later)
            (ap (λ w. w ++ messages (known ++ a.remotes) later)
                (written ∙ ap (λ m. h.written ++ meterset a.cfg.payload_size m ∷ []) known')
              ∙ append_assoc h.written _ (messages (known ++ a.remotes) later))
            (rest h' (meters ∙ known'))
      go (interrupted h') rest over = elim over [ ]
      go unfinished rest over = elim over [ ]

  -- A head-end system that starts anew goes on for as long as it hands its meters over (no round is
  -- set to route only) and reaches the access point; the messages that it writes are then, round by
  -- round and in order, the payload size of the round with every address from which a meter has
  -- connected until then, each once.
  pub run-new-messages :
      (fuel : ℕ) (e : lib.Engine) (later : List Arrival)
      → All HandsOver later
      → Written (messages [] later) (run lib fuel (new lib e) later)
  unfolding new register_all
  run-new-messages fuel e later hs = run-messages fuel [] (new lib e) later refl hs
