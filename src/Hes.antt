-- ===== src/Hes.antt =====
-- src/HESsim.cpp and src/websocket/HESConfig.{h,cpp}: the head-end system.
pub mod Message
pub mod Config
pub mod Registration
pub mod Server
pub mod Script
pub mod Main
