-- ===== src/Console/Pointers.antt =====
-- What the client of src/Linux.cpp points to, and what its library does: the sockets stand in the
-- lists of Core/Registry.antt, and the engines and the HDLC layer are made over one of them and never
-- deleted.
use dlms_access_point.Prelude.{ℕ, Text, ℤ, Bool, ◌||◌, Option, none, List, ◌++◌}
use dlms_access_point.Core.Registry.{Registry, release_socket, process}
use dlms_access_point.Core.Registry.Laws.{holds}

-- A request names a class, an attribute or method, and an instance. The casts of the first two to
-- the library's integer types are left to the engine.
pub record Request (Oid : Type 0) : Type 0 where
  pub class_id : ℤ
  pub member_id : ℤ
  pub instance_id : Oid

-- The engine, the HDLC layer and the network, as the client calls them. `Net` is their state.
pub record Library : Type 1 where
  pub Net : Type 0
  pub Engine : Type 0
  pub Hdlc : Type 0
  pub Oid : Type 0
  -- The address of a new socket, by those that are in use.
  pub allocate : Net → List ℕ → ℕ
  -- The constructors, over a new socket; that of a serial one is made with a baud rate.
  pub tcp_engine : ℤ → ℕ → Net → Net × Engine
  pub serial_engine : ℤ → ℤ → ℕ → Net → Net × Engine
  pub hdlc_engine : ℤ → ℤ → ℕ → Net → Net × Hdlc × Engine
  -- ISocket::Open, with whether it is successful, IsConnected and Close.
  pub open_socket : ℕ → Text → Net → Net × Bool
  pub is_connected : ℕ → Net → Bool
  pub close_socket : ℕ → Net → Net
  pub is_transport_connected : Engine → Net → Bool
  pub is_open : Engine → Net → Bool
  -- COSEMClientEngine::Open with the server's address, the password of the low security level, and
  -- the APDU size.
  pub open_association : ℤ → Option Text → ℤ → Engine → Net → Net
  pub release : Engine → Net → Net × Bool
  -- The casts of an `int` to ClassIDType, and to ObjectAttributeIdType.
  pub as_class_id : ℤ → ℤ
  pub as_attribute_id : ℤ → ℤ
  pub parse : Text → Option Oid
  -- The requests, with the token of one that is accepted.
  pub get : Request Oid → Engine → Net → Net × Option ℕ
  pub set : Request Oid → Text → Engine → Net → Net × Option ℕ
  pub action : Request Oid → ℤ → Engine → Net → Net × Option ℕ
  -- HDLCClientLLC.
  pub identify : Hdlc → Net → Net
  pub connect : ℤ → Hdlc → Net → Net
  pub disconnect : Hdlc → Net → Net
  pub hdlc_is_connected : Hdlc → Net → Bool

-- An object and the socket that it is made over.
pub record Handle (A : Type 0) : Type 0 where
  pub target : A
  pub over : ℕ

pub record Pointers (Engine Hdlc : Type 0) : Type 0 where
  pub ip : Registry
  pub serial : Registry
  pub engine : Option (Handle Engine)
  pub socket : Option ℕ
  pub serial_socket : Option ℕ
  pub hdlc : Option (Handle Hdlc)

module _ {Engine Hdlc : Type 0} where
  -- A socket stands in one of the two lists.
  abbrev pub is_alive : Pointers Engine Hdlc → ℕ → Bool
  is_alive p a = holds p.ip.sockets a || holds p.serial.sockets a

  unfoldable pub in_use : Pointers Engine Hdlc → List ℕ
  in_use p = p.ip.sockets ++ p.serial.sockets

  -- LinuxIP::ReleaseSocket, also of a serial socket that `m_pSocket` points to.
  unfoldable pub release_ip : Pointers Engine Hdlc → ℕ → Pointers Engine Hdlc
  release_ip p a = record p { ip = release_socket p.ip a; socket = none }

  -- LinuxSerial::ReleaseSocket as DisconnectConfirm calls it.
  unfoldable pub release_serial : Pointers Engine Hdlc → ℕ → Pointers Engine Hdlc
  release_serial p a = record p {
    serial = release_socket p.serial a;
    socket = none;
    serial_socket = none;
  }

  -- The tasks that a handler has posted run before the next menu.
  unfoldable pub settle : Pointers Engine Hdlc → Pointers Engine Hdlc
  settle p = record p { ip = process p.ip; serial = process p.serial }
