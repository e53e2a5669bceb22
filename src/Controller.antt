-- ===== src/Controller.antt =====
-- What the four controllers share: the results that crossplane-runtime's reconciler reads, and the
-- connection to GrowthBook.
pub mod Managed
pub mod Connect
