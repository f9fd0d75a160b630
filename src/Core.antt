-- ===== src/Core.antt =====
-- src/core: the Linux side of the base library.
pub mod Timer
pub mod Services
pub mod Io
pub mod Socket
pub mod Registry
pub mod Serial
pub mod Debug
