-- ===== src/Project.antt =====
-- The Project controller, internal/controller/project.
pub mod Convert
pub mod Converge
pub mod Creation
pub mod Drift
pub mod External
pub mod Lifecycle
pub mod Connecting
pub mod Updating
