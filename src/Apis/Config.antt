-- ===== src/Apis/Config.antt =====
-- apis/v1alpha1/types.go, and what every managed resource has in common.
use provider_growthbook.Base.{String, Bool}

-- `spec.providerConfigRef` of a managed resource.
pub record ProviderConfigReference : Type 0 where
  pub kind : String
  pub name : String

-- What the controllers read and write of a managed resource: `spec`, `status.atProvider`, and
-- whether the condition Available has been set.
pub record Resource (Parameters InitParameters Observation : Type 0) : Type 0 where
  pub namespace : String
  pub provider_config_reference : ProviderConfigReference
  pub external_name : String
  pub for_provider : Parameters
  pub init_provider : InitParameters
  pub at_provider : Observation
  pub available : Bool

-- `Selectors` is crossplane-runtime's CommonCredentialSelectors.
pub record ProviderCredentials (Selectors : Type 0) : Type 0 where
  pub source : String
  pub selectors : Selectors

pub record ProviderConfigSpec (Selectors : Type 0) : Type 0 where
  pub credentials : ProviderCredentials Selectors
