-- ===== src/Console/Client.antt =====
-- Class ClientApp of src/Linux.cpp: its state, and the calls its handlers are made of.
pub mod Connect
pub mod Requests
pub mod Disconnect
pub mod Menu
pub mod Invariant
pub mod Safety
pub mod Submit
mod Tests
use dlms_access_point.Prelude.{ℕ, if◌then◌else◌, Text, ℤ, Option, none, some, Bool, false, true}
use dlms_access_point.Console.Input.{Console, print_line, get_numeric_input, get_string_input}
use dlms_access_point.Console.Machine.{
  end_of_input, null_pointer, released_socket, returned, stopped, M, ◌>>=◌, ◌>>◌,
}
use dlms_access_point.Console.Pointers.{Library, Handle, Pointers, is_alive}

module _ (lib : Library) where
  open lib use {Net, Engine, Hdlc, Oid}

  pub record Client : Type 0 where
    pub net : Net
    pub pointers : Pointers Engine Hdlc
    pub get_token : Option ℕ
    pub set_token : Option ℕ
    pub action_token : Option ℕ
    pub console : Console

  -- Where the input ends, the exception leaves main.
  unfoldable pub console_op : {A : Type 0} → (Console → Option (A × Console)) → M Client A
  console_op f s = elim (f s.console) [
    | none ↦ stopped end_of_input s
    | some (a, c) ↦ returned a (record s { console = c })
  ]

  pub number : Text → ℤ → M Client ℤ
  unfolding console_op
  number prompt default = console_op (get_numeric_input prompt default)

  pub text : Text → Text → M Client Text
  unfolding console_op
  text prompt default = console_op (get_string_input prompt default)

  unfoldable pub say : Text → M Client (Unit {0})
  say line s = returned tt (record s { console = print_line line s.console })

  pub net_op : {A : Type 0} → (Net → Net × A) → M Client A
  net_op f s = let (n, a) = f s.net in returned a (record s { net = n })

  pub net_do : (Net → Net) → M Client (Unit {0})
  net_do f s = returned tt (record s { net = f s.net })

  pub the_net : M Client Net
  the_net s = returned s.net s

  pub the_pointers : M Client (Pointers Engine Hdlc)
  the_pointers s = returned s.pointers s

  pub set_pointers : Pointers Engine Hdlc → M Client (Unit {0})
  set_pointers p s = returned tt (record s { pointers = p })

  -- A body behind a test, and what is printed where it fails.
  pub guarded : Bool → Text → M Client (Unit {0}) → M Client (Unit {0})
  unfolding say
  guarded true message body = body
  guarded false message body = say message

  -- A call of a socket, and of an object that talks over one.
  pub touch : ℕ → M Client (Unit {0})
  touch a s = if is_alive s.pointers a then returned tt s else stopped released_socket s

  pub through : {A : Type 0} → Option (Handle A) → M Client A
  unfolding touch
  through none s = stopped null_pointer s
  through (some h) s = elim (touch h.over s) [
    | returned _ s' ↦ returned h.target s'
    | stopped stop s' ↦ stopped stop s'
  ]

  pub the_engine : M Client Engine
  unfolding through
  the_engine = do p ← the_pointers; through p.engine
