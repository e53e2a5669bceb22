-- ===== src/Apis/Feature.antt =====
-- apis/feature/v1alpha1: feature_types.go and feature_rules_types.go
use mathlib.Core.Int.{ℤ}
use provider_growthbook.Apis.Config.{Resource}
use provider_growthbook.Base.{String, Bool, Option, List}

pub record SavedGroupTargeting : Type 0 where
  pub match : String
  pub ids : Option (List String)

pub record FeatureRuleVariation : Type 0 where
  pub variation_id : String
  pub value : String

pub record FeatureRule : Type 0 where
  pub type : String
  pub id : Option String
  pub description : Option String
  pub enabled : Option Bool
  pub condition : Option String
  pub saved_groups : Option (List SavedGroupTargeting)
  pub all_environments : Option Bool
  pub environments : Option (List String)
  pub value : Option String
  -- a decimal string
  pub coverage : Option String
  pub hash_attribute : Option String
  pub experiment_id : Option String
  pub variations : Option (List FeatureRuleVariation)

pub record FeatureRuleObservation : Type 0 where
  pub id : String
  pub type : String
  pub enabled : Bool
  pub environments : Option (List String)

pub record FeatureEnvironment : Type 0 where
  pub enabled : Option Bool

pub record FeatureParameters : Type 0 where
  pub value_type : String
  pub default_value : String
  pub description : Option String
  pub project : Option String
  pub tags : Option (List String)
  pub archived : Option Bool
  pub owner : Option String
  pub environments : Option (List (String × FeatureEnvironment))
  pub rules : Option (List FeatureRule)

pub record FeatureInitParameters : Type 0 where
  pub value_type : Option String
  pub default_value : Option String
  pub description : Option String
  pub project : Option String
  pub tags : Option (List String)
  pub archived : Option Bool
  pub owner : Option String
  pub environments : Option (List (String × FeatureEnvironment))
  pub rules : Option (List FeatureRule)

pub record FeatureEnvironmentObservation : Type 0 where
  pub enabled : Bool

pub record FeatureRevisionObservation : Type 0 where
  pub version : ℤ

pub record FeatureObservation : Type 0 where
  pub id : String
  pub revision : FeatureRevisionObservation
  pub date_created : String
  pub date_updated : String
  pub environments : Option (List (String × FeatureEnvironmentObservation))
  pub rules : Option (List FeatureRuleObservation)

abbrev pub Feature : Type 0
Feature = Resource FeatureParameters FeatureInitParameters FeatureObservation
