-- ===== src/Console/Client/Submit.antt =====
-- Choice 2 of src/Linux.cpp where the association is open.
use dlms_access_point.Prelude.{
  ℕ, Text, ℤ, codes, ◌≡◌, refl, Option, none, some, true, List, [], ◌∷◌, ◌++◌, ap, ◌∙◌, pos,
}
use dlms_access_point.Console.Number.{converted}
use dlms_access_point.Console.Input.{
  answer, ask, get_numeric_input, get_string_input, get_line, take_line, or_default, print_line,
}
use dlms_access_point.Console.Machine.{M, ◌>>=◌, returned, bind-returned}
use dlms_access_point.Console.Pointers.{Library, Handle, is_alive, Request}
use dlms_access_point.Console.Client.{
  net_op, Client, number, text, console_op, the_pointers, the_net, the_engine, through, touch, say,
  guarded,
}
use dlms_access_point.Console.Client.Requests.{
  is_ready, is_ready_through, note_get, get_instance, on_cosem_get,
}

ask-typed :
    (prompt : Text) (default z : ℤ) (line : Text) (rest input output : List Text)
    → input ≡ line ∷ rest
    → answer default line ≡ converted z
    → ask prompt default input output
      ≡ some (z, record { input = rest; output = output ++ (prompt ++ codes ": ") ∷ [] })
unfolding ask
ask-typed prompt default z line rest input output e typed = rw (e, ask, typed) refl

take_line-typed :
    (line : Text) (rest input output : List Text)
    → input ≡ line ∷ rest
    → take_line input output ≡ some (line, record { input = rest; output = output })
unfolding take_line
take_line-typed line rest input output e = rw e refl

module _ (lib : Library) where
  open lib use {Net, Engine, Oid}

  -- The console behind a question that has been answered.
  abbrev answered : Client lib → Text → List Text → Client lib
  answered s prompt rest = record s {
    console = record { input = rest; output = s.console.output ++ (prompt ++ codes ": ") ∷ [] };
  }

  number-typed :
      {A : Type 0} (prompt : Text) (default z : ℤ) (line : Text) (rest : List Text)
      (k : ℤ → M (Client lib) A) (s : Client lib)
      → s.console.input ≡ line ∷ rest
      → answer default line ≡ converted z
      → (number lib prompt default >>= k) s ≡ k z (answered s prompt rest)
  unfolding number console_op get_numeric_input
  number-typed prompt default z line rest k s e typed =
      bind-returned (number lib prompt default) k s (answered s prompt rest) z (
        rw
          (
            ask-typed prompt default z line rest s.console.input s.console.output e typed,
            number,
            console_op,
            get_numeric_input,
          )
          refl)

  text-typed :
      {A : Type 0} (prompt default line : Text) (rest : List Text) (k : Text → M (Client lib) A)
      (s : Client lib)
      → s.console.input ≡ line ∷ rest
      → (text lib prompt default >>= k) s ≡ k (or_default default line) (answered s prompt rest)
  unfolding text console_op get_string_input get_line print_line
  text-typed prompt default line rest k s e =
      bind-returned (text lib prompt default) k s (answered s prompt rest) (or_default default line)
        (rw
          (
            take_line-typed line rest s.console.input
                (s.console.output ++ (prompt ++ codes ": ") ∷ []) e,
            text,
            console_op,
            get_string_input,
          )
          refl)

  touch-alive :
      (a : ℕ) (s : Client lib) → is_alive s.pointers a ≡ true → touch lib a s ≡ returned tt s
  unfolding touch
  touch-alive a s alive = rw (alive, touch) refl

  through-alive :
      {A : Type 0} (o : Option (Handle A)) (h : Handle A) (s : Client lib)
      → o ≡ some h
      → is_alive s.pointers h.over ≡ true
      → through lib o s ≡ returned h.target s
  unfolding through
  through-alive o h s e alive = rw (e, through, touch-alive h.over s alive) refl

  -- The association is open over a socket that is there.
  pub record IsReady (s : Client lib) (a : ℕ) (h : Handle Engine) : Type 0 where
    pub socket : s.pointers.socket ≡ some a
    pub engine : s.pointers.engine ≡ some h
    pub socket_alive : is_alive s.pointers a ≡ true
    pub engine_alive : is_alive s.pointers h.over ≡ true
    pub connected : lib.is_connected a s.net ≡ true
    pub is_open : lib.is_open h.target s.net ≡ true

  the_engine-IsReady :
      {A : Type 0} (a : ℕ) (h : Handle Engine) (k : Engine → M (Client lib) A) (s : Client lib)
      → IsReady s a h
      → (the_engine lib >>= k) s ≡ k h.target s
  unfolding the_engine the_pointers ◌>>=◌
  the_engine-IsReady a h k s ready =
      bind-returned (through lib s.pointers.engine) k s s h.target
        (through-alive s.pointers.engine h s ready.engine ready.engine_alive)

  is_ready_through-IsReady :
      (a : ℕ) (h : Handle Engine) (s : Client lib)
      → IsReady s a h
      → is_ready_through lib true s ≡ returned true s
  unfolding is_ready_through the_net
  is_ready_through-IsReady a h s ready =
      the_engine-IsReady a h _ s ready
      ∙ bind-returned (the_net lib) _ s s s.net refl
      ∙ ap (λ b. returned b s) ready.is_open

  is_ready-IsReady :
      (o : Option ℕ) (a : ℕ) (h : Handle Engine) (s : Client lib)
      → IsReady s a h
      → o ≡ some a
      → is_ready lib o s ≡ returned true s
  unfolding is_ready the_net
  is_ready-IsReady o a h s ready e =
      ap (λ u. is_ready lib u s) e
      ∙ bind-returned (touch lib a) _ s s tt (touch-alive a s ready.socket_alive)
      ∙ bind-returned (the_net lib) _ s s s.net refl
      ∙ ap (λ b. is_ready_through lib b s) ready.connected
      ∙ is_ready_through-IsReady a h s ready

  -- The request that choice 2 makes of the lines behind it.
  abbrev request_of : ℤ → ℤ → Oid → Request Oid
  request_of class_id attribute id = record {
    class_id = class_id;
    member_id = attribute;
    instance_id = id;
  }

  -- The network and the stored token behind that request: nothing is asked for an OBIS code that
  -- cannot be parsed, and a request that the library refuses leaves the token.
  unfoldable pub requested : ℤ → ℤ → Engine → Net → Option ℕ → Option Oid → Net × Option ℕ
  requested class_id attribute engine before stored none = (before, stored)
  requested class_id attribute engine before stored (some id) =
      let (net, token) = lib.get (request_of class_id attribute id) engine before in
      (net, elim token [ none ↦ stored | some n ↦ some n ])

  get_instance-IsReady :
      (class_id attribute : ℤ) (o : Option Oid) (a : ℕ) (h : Handle Engine) (s : Client lib)
      → IsReady s a h
      → let asked = requested class_id attribute h.target s.net s.get_token o in
        (output : List Text) × (get_instance lib class_id attribute o s
          ≡ returned tt (record s {
            net = asked.0;
            get_token = asked.1;
            console = record { input = s.console.input; output = output };
          }))
  unfolding get_instance net_op note_get say print_line requested
  get_instance-IsReady class_id attribute none a h s ready = (_, refl)
  get_instance-IsReady class_id attribute (some id) a h s ready =
      go (lib.get (request_of class_id attribute id) h.target s.net) refl
    where
      go :
          (r : Net × Option ℕ)
          → lib.get (request_of class_id attribute id) h.target s.net ≡ r
          → (output : List Text) × (get_instance lib class_id attribute (some id) s
              ≡ returned tt (record s {
                net = r.0;
                get_token = elim r.1 [ none ↦ s.get_token | some n ↦ some n ];
                console = record { input = s.console.input; output = output };
              }))
      go (net, none) got = (
        _,
        the_engine-IsReady a h _ s ready
            ∙ bind-returned (net_op lib (lib.get (request_of class_id attribute id) h.target)) _ s
                (record s { net = net }) none (ap (λ p. returned p.1 (record s { net = p.0 })) got),
      )
      go (net, some token) got = (
        _,
        the_engine-IsReady a h _ s ready
            ∙ bind-returned (net_op lib (lib.get (request_of class_id attribute id) h.target)) _ s
                (record s { net = net }) (some token)
                (ap (λ p. returned p.1 (record s { net = p.0 })) got),
      )

  -- A client whose association is open, behind choice 2 and with three lines typed, a class and an
  -- attribute that are numbers or empty, and an OBIS code or an empty line: it makes at most one
  -- request, for what they name, with class 1, attribute 2 and 0-0:96.1.0*255 for what is empty and
  -- the two numbers cast to the library's types. If the library can parse the OBIS code it makes the
  -- request, and if the library takes it its token is stored; otherwise the stored token stays. The
  -- three lines are used up, and nothing else changes but the network and what is printed.
  pub on_cosem_get-request :
      (class_line attribute_line code : Text) (rest : List Text) (class_id attribute : ℤ) (a : ℕ)
      (h : Handle Engine) (s : Client lib)
      → IsReady s a h
      → s.console.input ≡ class_line ∷ (attribute_line ∷ (code ∷ rest))
      → answer (pos 1) class_line ≡ converted class_id
      → answer (pos 2) attribute_line ≡ converted attribute
      → let asked =
          requested
            (lib.as_class_id class_id)
            (lib.as_attribute_id attribute)
            h.target
            s.net
            s.get_token
            (lib.parse (or_default (codes "0-0:96.1.0*255") code)) in
        (output : List Text) × (on_cosem_get lib s
          ≡ returned tt (record s {
            net = asked.0;
            get_token = asked.1;
            console = record { input = rest; output = output };
          }))
  unfolding on_cosem_get the_pointers guarded ◌>>=◌ requested
  on_cosem_get-request class_line attribute_line code rest class_id attribute a h s ready typed c
        t =
      let after1 = answered s (codes "Class ID (Default: 1)") (attribute_line ∷ (code ∷ rest)) in
      let after2 = answered after1 (codes "Attribute (Default: 2)") (code ∷ rest) in
      let after3 = answered after2 (codes "OBIS Code (Default: 0-0:96.1.0*255)") rest in
      let still : IsReady after3 a h = record {
        socket = ready.socket;
        engine = ready.engine;
        socket_alive = ready.socket_alive;
        engine_alive = ready.engine_alive;
        connected = ready.connected;
        is_open = ready.is_open;
      } in
      let (output, done) =
        get_instance-IsReady (lib.as_class_id class_id) (lib.as_attribute_id attribute)
          (lib.parse (or_default (codes "0-0:96.1.0*255") code)) a h after3 still in
      (
        output,
        bind-returned (is_ready lib s.pointers.socket) _ s s true
              (is_ready-IsReady s.pointers.socket a h s ready ready.socket)
            ∙ number-typed (codes "Class ID (Default: 1)") (pos 1) class_id class_line _ _ s typed c
            ∙ number-typed (codes "Attribute (Default: 2)") (pos 2) attribute attribute_line _ _
                after1 refl t
            ∙ text-typed (codes "OBIS Code (Default: 0-0:96.1.0*255)") _ code rest _ after2 refl
            ∙ done,
      )
