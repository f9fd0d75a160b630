-- ===== src/Meter.antt =====
-- src/Metersim.cpp and src/server: the simulated meter and its COSEM objects.
pub mod Cosem
pub mod Sample
pub mod Disconnect
pub mod ImageTransfer
pub mod Schema
pub mod Data
pub mod Clock
pub mod Device
pub mod Simulator
