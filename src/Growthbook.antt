-- ===== src/Growthbook.antt =====
-- The client package internal/clients/growthbook.
pub mod Calls
pub mod Credentials
pub mod Errors
pub mod Feature
pub mod Environment
pub mod Http
pub mod Json
pub mod Project
pub mod SdkConnection
pub mod Text
