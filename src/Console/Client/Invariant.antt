-- ===== src/Console/Client/Invariant.antt =====
-- What holds of a client's pointers between two events, and the calls that keep it.
use dlms_access_point.Prelude.{
  Bool, false, if◌then◌else◌, Text, ℤ, ℕ, Option-cases, ◌≡◌, inl, inr, true, Option, none, some, [],
}
use dlms_access_point.Core.Registry.Laws.{holds}
use dlms_access_point.Console.Input.{Console}
use dlms_access_point.Console.Machine.{pure, bind_assoc, M, ◌>>=◌, Safe}
use dlms_access_point.Console.Pointers.{Library, Handle, Pointers, is_alive}
use dlms_access_point.Console.Client.{
  Client, console_op, touch, through, number, text, say, net_op, net_do, the_net, the_pointers,
  the_engine,
}

module _ {Engine Hdlc : Type 0} where
  -- Where `m_pSocket` is set there is an engine, and the sockets of both are in the lists.
  abbrev pub EngineReady : Pointers Engine Hdlc → Option ℕ → Option (Handle Engine) → Type 0
  EngineReady p none engine = Unit
  EngineReady p (some a) none = ⊥
  EngineReady p (some a) (some h) = (is_alive p a ≡ true) × (is_alive p h.over ≡ true)

  abbrev pub SerialReady : Pointers Engine Hdlc → Option ℕ → Type 0
  SerialReady p none = Unit
  SerialReady p (some a) = holds p.serial.sockets a ≡ true

  -- No removal is posted, and the pointers lead to sockets that are there.
  pub record IsSound (p : Pointers Engine Hdlc) : Type 0 where
    pub ip_settled : p.ip.posted ≡ []
    pub serial_settled : p.serial.posted ≡ []
    pub engine_ready : EngineReady p p.socket p.engine
    pub serial_ready : SerialReady p p.serial_socket

module _ (lib : Library) {B : Type 0} (Q : B → Client lib → Type 0) where
  Safe-console_op :
      {A : Type 0} (f : Console → Option (A × Console)) (k : A → M (Client lib) B) (s : Client lib)
      → ((a : A) (c : Console) → Safe Q (k a (record s { console = c })))
      → Safe Q ((console_op lib f >>= k) s)
  unfolding console_op ◌>>=◌
  Safe-console_op f k s safe = elim (Option-cases (f s.console)) [
    | inl e ↦ rw (e, Safe, ◌>>=◌, console_op) tt
    | inr ((a, c), e) ↦ rw (e, Safe, ◌>>=◌, console_op) (safe a c)
  ]

  -- What follows a question, a line that is printed, and a call of the network.
  pub Safe-number :
      (prompt : Text) (default : ℤ) (k : ℤ → M (Client lib) B) (s : Client lib)
      → ((z : ℤ) (c : Console) → Safe Q (k z (record s { console = c })))
      → Safe Q ((number lib prompt default >>= k) s)
  unfolding number
  Safe-number prompt default k s safe = Safe-console_op _ k s safe

  pub Safe-text :
      (prompt default : Text) (k : Text → M (Client lib) B) (s : Client lib)
      → ((x : Text) (c : Console) → Safe Q (k x (record s { console = c })))
      → Safe Q ((text lib prompt default >>= k) s)
  unfolding text
  Safe-text prompt default k s safe = Safe-console_op _ k s safe

  pub Safe-say :
      (line : Text) (k : Unit {0} → M (Client lib) B) (s : Client lib)
      → ((c : Console) → Safe Q (k tt (record s { console = c })))
      → Safe Q ((say lib line >>= k) s)
  unfolding say ◌>>=◌
  Safe-say line k s safe = safe _

  pub Safe-net_op :
      {A : Type 0} (f : lib.Net → lib.Net × A) (k : A → M (Client lib) B) (s : Client lib)
      → ((a : A) (n : lib.Net) → Safe Q (k a (record s { net = n })))
      → Safe Q ((net_op lib f >>= k) s)
  unfolding net_op ◌>>=◌
  Safe-net_op f k s safe = safe _ _

  pub Safe-net_do :
      (f : lib.Net → lib.Net) (k : Unit {0} → M (Client lib) B) (s : Client lib)
      → ((n : lib.Net) → Safe Q (k tt (record s { net = n })))
      → Safe Q ((net_do lib f >>= k) s)
  unfolding net_do ◌>>=◌
  Safe-net_do f k s safe = safe _

  pub Safe-the_net :
      (k : lib.Net → M (Client lib) B) (s : Client lib)
      → Safe Q (k s.net s)
      → Safe Q ((the_net lib >>= k) s)
  unfolding the_net ◌>>=◌
  Safe-the_net k s safe = safe

  pub Safe-the_pointers :
      (k : Pointers lib.Engine lib.Hdlc → M (Client lib) B) (s : Client lib)
      → Safe Q (k s.pointers s)
      → Safe Q ((the_pointers lib >>= k) s)
  unfolding the_pointers ◌>>=◌
  Safe-the_pointers k s safe = safe

  pub Safe-touch :
      (a : ℕ) (k : Unit {0} → M (Client lib) B) (s : Client lib)
      → is_alive s.pointers a ≡ true
      → Safe Q (k tt s)
      → Safe Q ((touch lib a >>= k) s)
  unfolding touch ◌>>=◌
  Safe-touch a k s e safe = rw (e, Safe, ◌>>=◌, touch) safe

  Safe-through :
      {A : Type 0} (handle : Option (Handle A)) (h : Handle A) (k : A → M (Client lib) B)
      (s : Client lib)
      → handle ≡ some h
      → is_alive s.pointers h.over ≡ true
      → Safe Q (k h.target s)
      → Safe Q ((through lib handle >>= k) s)
  unfolding through touch ◌>>=◌
  Safe-through handle h k s e alive safe = rw (e, alive, Safe, ◌>>=◌, through, touch) safe

  pub Safe-the_engine :
      (h : Handle lib.Engine) (k : lib.Engine → M (Client lib) B) (s : Client lib)
      → s.pointers.engine ≡ some h
      → is_alive s.pointers h.over ≡ true
      → Safe Q (k h.target s)
      → Safe Q ((the_engine lib >>= k) s)
  unfolding the_engine the_pointers ◌>>=◌
  Safe-the_engine h k s e alive safe = Safe-through s.pointers.engine h k s e alive safe

  pub Safe-assoc :
      {A C : Type 0} (m : M (Client lib) A) (f : A → M (Client lib) C) (k : C → M (Client lib) B)
      (s : Client lib)
      → Safe Q ((m >>= λ a. f a >>= k) s)
      → Safe Q (((m >>= f) >>= k) s)
  Safe-assoc m f k s safe = rw (bind_assoc m f k s) safe

  pub Safe-pure :
      {A : Type 0} (a : A) (k : A → M (Client lib) B) (s : Client lib)
      → Safe Q (k a s)
      → Safe Q ((pure a >>= k) s)
  unfolding ◌>>=◌
  Safe-pure a k s safe = safe

  pub Safe-branch :
      {A : Type 0} (b : Bool) (m n : M (Client lib) A) (k : A → M (Client lib) B) (s : Client lib)
      → Safe Q ((m >>= k) s)
      → Safe Q ((n >>= k) s)
      → Safe Q (((if b then m else n) >>= k) s)
  Safe-branch true m n k s first second = first
  Safe-branch false m n k s first second = second
