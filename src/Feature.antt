-- ===== src/Feature.antt =====
-- The Feature controller, internal/controller/feature.
pub mod Convert
pub mod Converge
pub mod DriftLaws
pub mod External
pub mod LateInitialize
pub mod Lifecycle
pub mod Matches
pub mod Merge
pub mod Reconcile
pub mod Observing
pub mod RulesConvert
pub mod RulesDrift
pub mod RulesRequest
pub mod SameSet
pub mod Filled
pub mod Steps
pub mod Rounds
pub mod MapOrder
pub mod Absence
pub mod Archive
pub mod Creating
pub mod Own
pub mod Requests
pub mod Service
pub mod UpToDate
pub mod Variations
