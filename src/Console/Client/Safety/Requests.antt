-- ===== src/Console/Client/Safety/Requests.antt =====
-- What choices 1 to 4 of src/Linux.cpp leave of a client's pointers.
use dlms_access_point.Prelude.{
  Text, ℤ, ◌≡◌, refl, Bool, true, false, Option, none, some, ℕ, pos, negsuc, zero, suc,
}
use dlms_access_point.Console.Machine.{M, ◌>>=◌, Safe}
use dlms_access_point.Console.Pointers.{Library, Handle, is_alive}
use dlms_access_point.Console.Client.{Client, guarded}
use dlms_access_point.Console.Client.Invariant.{
  EngineReady, IsSound, Safe-number, Safe-text, Safe-net_op, Safe-pure, Safe-the_engine,
  Safe-the_pointers, Safe-the_net, Safe-touch, Safe-assoc,
}
use dlms_access_point.Console.Client.Safety.{Sound, say-Sound, settle-IsSound, net_do-Sound}
use dlms_access_point.Console.Client.Requests.{
  is_ready, get_instance, note_get, on_cosem_get, set_instance, note_set, on_cosem_set,
  action_instance, note_action, on_cosem_action, is_linked, open_with, on_cosem_open,
  is_ready_through,
}

module _ (lib : Library) where
  open lib use {Engine, Oid}

  -- An engine that talks over a socket that is there.
  abbrev HasEngine : Client lib → Handle Engine → Type 0
  HasEngine s h = (s.pointers.engine ≡ some h) × (is_alive s.pointers h.over ≡ true)

  -- `m_pSocket` is set or not.
  is_ready_through-Sound :
      (connected : Bool) (h : Handle Engine) (k : Bool → M (Client lib) (Unit {0})) (s : Client lib)
      → HasEngine s h
      → ((b : Bool) → Safe (Sound lib) (k b s))
      → Safe (Sound lib) ((is_ready_through lib connected >>= k) s)
  unfolding is_ready_through ◌>>=◌
  is_ready_through-Sound false h k s has safe = safe false
  is_ready_through-Sound true h k s has safe = search (Safe-assoc lib, Safe-the_engine lib)

  is_ready-Sound :
      (socket : Option ℕ) (engine : Option (Handle Engine)) (k : Bool → M (Client lib) (Unit {0}))
      (s : Client lib)
      → s.pointers.engine ≡ engine
      → EngineReady s.pointers socket engine
      → Safe (Sound lib) (k false s)
      → ((h : Handle Engine) → HasEngine s h → (b : Bool) → Safe (Sound lib) (k b s))
      → Safe (Sound lib) ((is_ready lib socket >>= k) s)
  unfolding is_ready
  is_ready-Sound none engine k s e ready refused safe = search (Safe-pure lib)
  is_ready-Sound (some a) none k s e ready refused safe = elim ready [ ]
  is_ready-Sound (some a) (some h) k s e ready refused safe = Safe-assoc lib _ _ _ _ _ (
      Safe-touch lib _ _ _ _ ready.0 (
        Safe-assoc lib _ _ _ _ _ (
          Safe-the_net lib _ _ _
            (is_ready_through-Sound _ h k s (e, ready.1) (safe h (e, ready.1))))))

  is_linked-Sound :
      (socket : Option ℕ) (engine : Option (Handle Engine)) (k : Bool → M (Client lib) (Unit {0}))
      (s : Client lib)
      → s.pointers.engine ≡ engine
      → EngineReady s.pointers socket engine
      → Safe (Sound lib) (k false s)
      → ((h : Handle Engine) → HasEngine s h → (b : Bool) → Safe (Sound lib) (k b s))
      → Safe (Sound lib) ((is_linked lib socket >>= k) s)
  unfolding is_linked
  is_linked-Sound none engine k s e ready refused safe = search (Safe-pure lib)
  is_linked-Sound (some a) none k s e ready refused safe = elim ready [ ]
  is_linked-Sound (some a) (some h) k s e ready refused safe = Safe-assoc lib _ _ _ _ _ (
      Safe-touch lib _ _ _ _ ready.0 (
        Safe-assoc lib _ _ _ _ _ (
          Safe-the_engine lib _ h _ _ e ready.1 (
            Safe-assoc lib _ _ _ _ _
              (Safe-the_net lib _ _ _ (Safe-pure lib _ _ _ _ (safe h (e, ready.1) _)))))))

  guarded-Sound :
      (b : Bool) (message : Text) (body : M (Client lib) (Unit {0})) (s : Client lib)
      → IsSound s.pointers
      → Safe (Sound lib) (body s)
      → Safe (Sound lib) (guarded lib b message body s)
  unfolding guarded
  guarded-Sound true message body s sound safe = safe
  guarded-Sound false message body s sound safe = say-Sound lib message s sound

  -- A handler that asks first whether the association is open, or whether it could be.
  when_ready-Sound :
      (message : Text) (body : M (Client lib) (Unit {0})) (s : Client lib)
      → IsSound s.pointers
      → ((h : Handle Engine) → HasEngine s h → Safe (Sound lib) (body s))
      → Safe (Sound lib) ((is_ready lib s.pointers.socket >>= λ b. guarded lib b message body) s)
  unfolding guarded
  when_ready-Sound message body s sound safe =
      is_ready-Sound s.pointers.socket s.pointers.engine _ s refl sound.engine_ready
        (say-Sound lib message s sound)
        (λ h has b. guarded-Sound b message body s sound (safe h has))

  when_linked-Sound :
      (message : Text) (body : M (Client lib) (Unit {0})) (s : Client lib)
      → IsSound s.pointers
      → ((h : Handle Engine) → HasEngine s h → Safe (Sound lib) (body s))
      → Safe (Sound lib) ((is_linked lib s.pointers.socket >>= λ b. guarded lib b message body) s)
  unfolding guarded
  when_linked-Sound message body s sound safe =
      is_linked-Sound s.pointers.socket s.pointers.engine _ s refl sound.engine_ready
        (say-Sound lib message s sound)
        (λ h has b. guarded-Sound b message body s sound (safe h has))

  open_with-Sound :
      (destination security : ℤ) (h : Handle Engine) (s : Client lib)
      → IsSound s.pointers
      → HasEngine s h
      → Safe (Sound lib) (open_with lib destination security s)
  unfolding open_with
  open_with-Sound destination (pos zero) h s sound has =
      search (Safe-number lib, Safe-the_engine lib, net_do-Sound lib)
  open_with-Sound destination (pos (suc zero)) h s sound has =
      search (Safe-text lib, Safe-number lib, Safe-the_engine lib, net_do-Sound lib)
  open_with-Sound destination (pos (suc (suc k))) h s sound has = search (say-Sound lib)
  open_with-Sound destination (negsuc k) h s sound has = search (say-Sound lib)

  pub on_cosem_open-Sound :
      (s : Client lib) → IsSound s.pointers → Safe (Sound lib) (on_cosem_open lib s)
  unfolding on_cosem_open
  on_cosem_open-Sound s sound =
      Safe-the_pointers lib _ _ _
        (when_linked-Sound _ _ s sound (λ h has. search (Safe-number lib, open_with-Sound)))

  note_get-Sound :
      (token : Option ℕ) (s : Client lib)
      → IsSound s.pointers
      → Safe (Sound lib) (note_get lib token s)
  unfolding note_get
  note_get-Sound none s sound = settle-IsSound s.pointers sound
  note_get-Sound (some n) s sound = search (say-Sound lib)

  get_instance-Sound :
      (class_id attribute : ℤ) (id : Option Oid) (h : Handle Engine) (s : Client lib)
      → IsSound s.pointers
      → HasEngine s h
      → Safe (Sound lib) (get_instance lib class_id attribute id s)
  unfolding get_instance
  get_instance-Sound class_id attribute none h s sound has = search (say-Sound lib)
  get_instance-Sound class_id attribute (some id) h s sound has =
      search (Safe-the_engine lib, Safe-net_op lib, note_get-Sound)

  pub on_cosem_get-Sound :
      (s : Client lib) → IsSound s.pointers → Safe (Sound lib) (on_cosem_get lib s)
  unfolding on_cosem_get
  on_cosem_get-Sound s sound = Safe-the_pointers lib _ _ _ (
      when_ready-Sound _ _ s sound
        (λ h has. search (Safe-number lib, Safe-text lib, get_instance-Sound) depth 7))

  note_set-Sound :
      (token : Option ℕ) (s : Client lib)
      → IsSound s.pointers
      → Safe (Sound lib) (note_set lib token s)
  unfolding note_set
  note_set-Sound none s sound = settle-IsSound s.pointers sound
  note_set-Sound (some n) s sound = search (say-Sound lib)

  set_instance-Sound :
      (class_id attribute : ℤ) (id : Option Oid) (h : Handle Engine) (s : Client lib)
      → IsSound s.pointers
      → HasEngine s h
      → Safe (Sound lib) (set_instance lib class_id attribute id s)
  unfolding set_instance
  set_instance-Sound class_id attribute none h s sound has = search (say-Sound lib)
  set_instance-Sound class_id attribute (some id) h s sound has =
      search (Safe-text lib, Safe-the_engine lib, Safe-net_op lib, note_set-Sound)

  pub on_cosem_set-Sound :
      (s : Client lib) → IsSound s.pointers → Safe (Sound lib) (on_cosem_set lib s)
  unfolding on_cosem_set
  on_cosem_set-Sound s sound = Safe-the_pointers lib _ _ _ (
      when_ready-Sound _ _ s sound
        (λ h has. search (Safe-number lib, Safe-text lib, set_instance-Sound) depth 7))

  note_action-Sound :
      (token : Option ℕ) (s : Client lib)
      → IsSound s.pointers
      → Safe (Sound lib) (note_action lib token s)
  unfolding note_action
  note_action-Sound none s sound = settle-IsSound s.pointers sound
  note_action-Sound (some n) s sound = search (say-Sound lib)

  action_instance-Sound :
      (class_id method : ℤ) (id : Option Oid) (h : Handle Engine) (s : Client lib)
      → IsSound s.pointers
      → HasEngine s h
      → Safe (Sound lib) (action_instance lib class_id method id s)
  unfolding action_instance
  action_instance-Sound class_id method none h s sound has = search (say-Sound lib)
  action_instance-Sound class_id method (some id) h s sound has =
      search (Safe-number lib, Safe-the_engine lib, Safe-net_op lib, note_action-Sound)

  pub on_cosem_action-Sound :
      (s : Client lib) → IsSound s.pointers → Safe (Sound lib) (on_cosem_action lib s)
  unfolding on_cosem_action
  on_cosem_action-Sound s sound = Safe-the_pointers lib _ _ _ (
      when_ready-Sound _ _ s sound
        (λ h has. search (Safe-number lib, Safe-text lib, action_instance-Sound) depth 7))
