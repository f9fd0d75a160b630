-- ===== src/Client/Sample.antt =====
-- A small stand-in for the client engine, for runs at concrete inputs. Its meter answers the third
-- poll; an association, once opened, stays open.
use dlms_access_point.Prelude.{
  leb, Text, Bool, true, false, ℕ, ◌+◌, Option, none, some, [], codes, ◌∷◌,
}
use dlms_access_point.Client.Library.{Library}

pub record Engine : Type 0 where
  pub polls : ℕ
  pub is_open : Bool

abbrev parse_nonempty : Text → Option Text
parse_nonempty [] = none
parse_nonempty (b ∷ bs) = some (b ∷ bs)

abbrev pub sample_library : Library
sample_library = record {
  Engine = Engine;
  Oid = Text;
  Value = Text;
  null_data = [];
  connect = λ url e. (e, true);
  poll = λ e. record e { polls = e.polls + 1 };
  throws = λ e. false;
  is_connected = λ e. leb 3 e.polls;
  is_transport_connected = λ e. leb 3 e.polls;
  is_open = λ e. e.is_open;
  open_association = λ server size e. record e { is_open = true };
  release = λ e. (record e { is_open = false }, true);
  parse = parse_nonempty;
  get = λ d e. (e, some d.class_id);
  set = λ d v e. (e, some 2);
  action = λ d v e. (e, none);
  release_socket = λ e. e;
  recent = λ e. codes "ff";
}

-- The same with a meter whose answer is no visible string: the callback throws.
abbrev pub throwing_library : Library
throwing_library = record sample_library { throws = λ e. e.is_open }

abbrev pub fresh : Engine
fresh = record { polls = 0; is_open = false }
