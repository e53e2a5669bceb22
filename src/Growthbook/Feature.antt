-- ===== src/Growthbook/Feature.antt =====
-- internal/clients/growthbook: feature.go and feature_rules.go
use mathlib.Core.Int.{ℤ}
use provider_growthbook.Base.{String, Bool, Option, List}

pub record FeatureSavedGroupTargeting : Type 0 where
  pub match : String
  pub ids : Option (List String)

pub record FeatureRuleVariation : Type 0 where
  pub variation_id : String
  pub value : String

pub record FeatureRule (Float : Type 0) : Type 0 where
  pub type : String
  pub id : String
  pub description : String
  pub enabled : Option Bool
  pub condition : String
  pub saved_groups : Option (List FeatureSavedGroupTargeting)
  pub all_environments : Bool
  pub environments : Option (List String)
  pub value : String
  pub coverage : Option Float
  pub hash_attribute : String
  pub experiment_id : String
  pub variations : Option (List FeatureRuleVariation)

pub record FeatureEnvironment : Type 0 where
  pub enabled : Bool

pub record FeatureRevision : Type 0 where
  pub version : ℤ

pub record Feature (Float : Type 0) : Type 0 where
  pub id : String
  pub archived : Bool
  pub description : String
  pub owner : String
  pub project : String
  pub value_type : String
  pub default_value : String
  pub tags : Option (List String)
  pub environments : Option (List (String × FeatureEnvironment))
  pub rules : Option (List (FeatureRule Float))
  pub date_created : String
  pub date_updated : String
  pub revision : Option FeatureRevision

pub record FeatureEnvironmentRequest : Type 0 where
  pub enabled : Option Bool

pub record FeatureRequest (Float : Type 0) : Type 0 where
  pub id : String
  pub value_type : String
  pub default_value : String
  pub description : Option String
  pub project : Option String
  pub tags : Option (List String)
  pub archived : Option Bool
  pub owner : Option String
  pub environments : Option (List (String × FeatureEnvironmentRequest))
  pub rules : Option (Option (List (FeatureRule Float)))
