-- ===== src/Wiring.antt =====
-- How the provider is put together: the Setup functions of the controllers, internal/controller and
-- cmd/provider.
pub mod Options
pub mod Managed
pub mod Controllers
pub mod Main
pub mod Laws
