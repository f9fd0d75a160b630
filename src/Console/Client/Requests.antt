-- ===== src/Console/Client/Requests.antt =====
-- ClientMenu_Handler of src/Linux.cpp, choices 1 to 5: the association and its requests.
use dlms_access_point.Prelude.{
  ℕ, if◌then◌else◌, codes, ℤ, ◌&&◌, Option, none, some, [], pos, negsuc, zero, suc, Bool, false,
  true, ◌++◌,
}
use dlms_access_point.Console.Number.{to_string}
use dlms_access_point.Console.Machine.{returned, M, ◌>>=◌, ◌>>◌, pure}
use dlms_access_point.Console.Pointers.{Library}
use dlms_access_point.Console.Client.{
  Client, number, text, say, net_op, net_do, the_net, the_pointers, guarded, touch, the_engine,
}

module _ (lib : Library) where
  open lib use {Net, Engine, Hdlc, Oid}

  -- `m_pSocket && m_pSocket->IsConnected() & m_pClientEngine->IsTransportConnected()`.
  unfoldable pub is_linked : Option ℕ → M (Client lib) Bool
  unfolding touch the_engine the_net
  is_linked none = pure false
  is_linked (some a) = do
    touch lib a
    engine ← the_engine lib
    n ← the_net lib
    pure (lib.is_connected a n && lib.is_transport_connected engine n)

  -- The `switch` on the security level, an enumeration with 0 for none and 1 for low.
  unfoldable pub open_with : ℤ → ℤ → M (Client lib) (Unit {0})
  unfolding text number the_engine net_do say
  open_with destination (pos zero) = do
    size ← number lib (codes "APDU Size (Default: 640)") (pos 640)
    engine ← the_engine lib
    net_do lib (lib.open_association destination none size engine)
  open_with destination (pos (suc zero)) = do
    password ← text lib (codes "Password") []
    size ← number lib (codes "APDU Size (Default: 640)") (pos 640)
    engine ← the_engine lib
    net_do lib (lib.open_association destination (some password) size engine)
  open_with destination (pos (suc (suc k))) =
      say lib (codes "Security Level is Not Supported at This Time")
  open_with destination (negsuc k) = say lib (codes "Security Level is Not Supported at This Time")

  unfoldable pub on_cosem_open : M (Client lib) (Unit {0})
  unfolding guarded is_linked the_pointers number open_with say
  on_cosem_open = do
    p ← the_pointers lib
    ready ← is_linked p.socket
    guarded lib ready (codes "Transport Connection Not Established Yet!\n") (do
      destination ← number lib (codes "Server Address (Default: 1)") (pos 1)
      security ←
          number lib (codes "Security Level [0 - None, 1 - Low, 2 - High] (Default: 0)") (pos 0)
      open_with destination security)

  -- `m_pSocket && m_pSocket->IsConnected() && m_pClientEngine->IsOpen()`.
  unfoldable pub is_ready_through : Bool → M (Client lib) Bool
  unfolding the_engine the_net
  is_ready_through false = pure false
  is_ready_through true = do engine ← the_engine lib; n ← the_net lib; pure (lib.is_open engine n)

  unfoldable pub is_ready : Option ℕ → M (Client lib) Bool
  unfolding touch the_net is_ready_through
  is_ready none = pure false
  is_ready (some a) = do touch lib a; n ← the_net lib; is_ready_through (lib.is_connected a n)

  -- The token of an accepted request is stored and printed.
  unfoldable pub note_get : Option ℕ → M (Client lib) (Unit {0})
  unfolding say
  note_get none s = returned tt s
  note_get (some n) s =
      say lib (codes "\tGet Request Sent: Token " ++ (to_string n ++ codes "\n"))
        (record s { get_token = some n })

  unfoldable pub note_set : Option ℕ → M (Client lib) (Unit {0})
  unfolding say
  note_set none s = returned tt s
  note_set (some n) s =
      say lib (codes "\tSet Request Sent: Token " ++ (to_string n ++ codes "\n"))
        (record s { set_token = some n })

  unfoldable pub note_action : Option ℕ → M (Client lib) (Unit {0})
  unfolding say
  note_action none s = returned tt s
  note_action (some n) s =
      say lib (codes "\tAction Request Sent: Token " ++ (to_string n ++ codes "\n"))
        (record s { action_token = some n })

  unfoldable pub get_instance : ℤ → ℤ → Option Oid → M (Client lib) (Unit {0})
  unfolding say the_engine net_op note_get
  get_instance class_id attribute none = say lib (codes "Malformed OBIS Code!\n")
  get_instance class_id attribute (some id) = do
    engine ← the_engine lib
    token ←
        net_op lib
          (lib.get (record { class_id = class_id; member_id = attribute; instance_id = id }) engine)
    note_get token

  unfoldable pub set_instance : ℤ → ℤ → Option Oid → M (Client lib) (Unit {0})
  unfolding say the_engine text net_op note_set
  set_instance class_id attribute none = say lib (codes "Malformed OBIS Code!\n")
  set_instance class_id attribute (some id) = do
    value ← text lib (codes "Value (Default: LINUXDATA)") (codes "LINUXDATA#")
    engine ← the_engine lib
    token ← net_op lib (
        lib.set (record { class_id = class_id; member_id = attribute; instance_id = id }) value
          engine)
    note_set token

  unfoldable pub action_instance : ℤ → ℤ → Option Oid → M (Client lib) (Unit {0})
  unfolding say the_engine number net_op note_action
  action_instance class_id method none = say lib (codes "Malformed OBIS Code!\n")
  action_instance class_id method (some id) = do
    parameter ← number lib (codes "Parameter (Default: 1)") (pos 1)
    engine ← the_engine lib
    token ← net_op lib (
        lib.action (record { class_id = class_id; member_id = method; instance_id = id }) parameter
          engine)
    note_action token

  -- CLSID_IData and CLSID_IClock are the defaults of the prompts.
  unfoldable pub on_cosem_get : M (Client lib) (Unit {0})
  unfolding guarded is_ready the_pointers number text get_instance
  on_cosem_get = do
    p ← the_pointers lib
    ready ← is_ready p.socket
    guarded lib ready (codes "Not Connected!\n") (do
      class_id ← number lib (codes "Class ID (Default: 1)") (pos 1)
      attribute ← number lib (codes "Attribute (Default: 2)") (pos 2)
      obis ← text lib (codes "OBIS Code (Default: 0-0:96.1.0*255)") (codes "0-0:96.1.0*255")
      get_instance (lib.as_class_id class_id) (lib.as_attribute_id attribute) (lib.parse obis))

  unfoldable pub on_cosem_set : M (Client lib) (Unit {0})
  unfolding guarded is_ready the_pointers number text set_instance
  on_cosem_set = do
    p ← the_pointers lib
    ready ← is_ready p.socket
    guarded lib ready (codes "Not Connected!\n") (do
      class_id ← number lib (codes "Class ID (Default: 1)") (pos 1)
      attribute ← number lib (codes "Attribute (Default: 2)") (pos 2)
      obis ← text lib (codes "OBIS Code (Default: 0-0:96.1.0*255)") (codes "0-0:96.1.0*255")
      set_instance (lib.as_class_id class_id) (lib.as_attribute_id attribute) (lib.parse obis))

  unfoldable pub on_cosem_action : M (Client lib) (Unit {0})
  unfolding guarded is_ready the_pointers number text action_instance
  on_cosem_action = do
    p ← the_pointers lib
    ready ← is_ready p.socket
    guarded lib ready (codes "Not Connected!\n") (do
      class_id ← number lib (codes "Class ID (Default: 8)") (pos 8)
      method ← number lib (codes "Method (Default: 1)") (pos 1)
      obis ← text lib (codes "OBIS Code (Default: 0-0:1.0.0*255)") (codes "0-0:1.0.0*255")
      action_instance (lib.as_class_id class_id) (lib.as_attribute_id method) (lib.parse obis))

  unfoldable pub on_cosem_release : M (Client lib) (Unit {0})
  unfolding the_engine net_op say
  on_cosem_release = do
    engine ← the_engine lib
    released ← net_op lib (lib.release engine)
    if released then pure tt else say lib (codes "Problem submitting COSEM Release!\n")
