-- ===== src/Client.antt =====
-- The DLMS/COSEM client that src/APsim.cpp and src/HESsim.cpp hold in two copies, and src/Linux.cpp
-- in part: the engine's callbacks and the session with one meter.
pub mod Confirm
pub mod Callbacks
pub mod Outcome
pub mod Library
pub mod Sample
pub mod Session
