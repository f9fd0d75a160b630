-- ===== src/Client/Library.antt =====
-- What a session takes from outside: the client engine of the DLMS/COSEM library with the socket
-- and the event loop under it, as one state.
use dlms_access_point.Prelude.{ℕ, Text, Bool, Option}

-- A request names a class, an attribute or method, and an instance. The casts of the first two to
-- the library's integer types are left to the engine.
pub record Descriptor (Oid : Type 0) : Type 0 where
  pub class_id : ℕ
  pub member_id : ℕ
  pub instance_id : Oid

pub record Library : Type 1 where
  pub Engine : Type 0
  pub Oid : Type 0
  pub Value : Type 0
  -- A COSEMType made from a null pointer.
  pub null_data : Value
  -- CreateSocket and Open towards a meter, and whether Open succeeded.
  pub connect : Text → Engine → Engine × Bool
  -- 100 ms of sleep and `io_service::poll`; and whether that poll is left by an exception, as the
  -- engine's callback OnGetConfirmation throws it.
  pub poll : Engine → Engine
  pub throws : Engine → Bool
  pub is_connected : Engine → Bool
  pub is_transport_connected : Engine → Bool
  pub is_open : Engine → Bool
  -- COSEMClientEngine::Open with the APDU size, Release, and the requests with the token of one
  -- that is accepted.
  pub open_association : ℕ → ℕ → Engine → Engine
  pub release : Engine → Engine × Bool
  pub parse : Text → Option Oid
  pub get : Descriptor Oid → Engine → Engine × Option ℕ
  pub set : Descriptor Oid → Value → Engine → Engine × Option ℕ
  pub action : Descriptor Oid → Value → Engine → Engine × Option ℕ
  -- IIP::ReleaseSocket.
  pub release_socket : Engine → Engine
  -- The engine's `recent`, which its callbacks fill.
  pub recent : Engine → Text
