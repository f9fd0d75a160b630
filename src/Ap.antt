-- ===== src/Ap.antt =====
-- src/APsim.cpp: the access point.
pub mod Config
pub mod Script
pub mod Readings
pub mod Server
pub mod Main
pub mod Threads
