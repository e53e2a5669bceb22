-- ===== src/Apis.antt =====
-- The custom resources of apis/: the desired state of each kind (`forProvider`, `initProvider`)
-- and the part of the status that the provider writes. A pointer or a slice that may be nil is an
-- `Option`, and a map is the list of its entries. Kubernetes metadata is left out.
pub mod Feature
pub mod Config
pub mod Environment
pub mod Project
pub mod SdkConnection
