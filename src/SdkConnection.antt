-- ===== src/SdkConnection.antt =====
-- The SDKConnection controller, internal/controller/sdkconnection.
pub mod Convert
pub mod Drift
pub mod External
pub mod Matches
pub mod Details
pub mod Converge
pub mod Connecting
