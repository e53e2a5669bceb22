-- ===== src/Growthbook/Calls.antt =====
-- The calls of the REST API: the methods of `Client` in feature.go, environment.go, project.go and
-- sdkconnection.go.
pub mod Feature
pub mod Environment
pub mod Laws
pub mod Lookup
pub mod Project
pub mod SdkConnection
