-- ===== src/Environment.antt =====
-- The Environment controller, internal/controller/environment.
pub mod Converge
pub mod Convert
pub mod Drift
pub mod External
pub mod Connecting
pub mod Lifecycle
