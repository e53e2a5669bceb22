-- ===== src/Apis/Environment.antt =====
-- apis/core/v1alpha1/environment_types.go
use provider_growthbook.Apis.Config.{Resource}
use provider_growthbook.Base.{String, Bool, Option, List}

pub record EnvironmentParameters : Type 0 where
  pub description : Option String
  pub toggle_on_list : Option Bool
  pub default_state : Option Bool
  pub projects : Option (List String)
  pub parent : Option String

pub record EnvironmentInitParameters : Type 0 where
  pub description : Option String
  pub toggle_on_list : Option Bool
  pub default_state : Option Bool
  pub projects : Option (List String)
  pub parent : Option String

pub record EnvironmentObservation : Type 0 where
  pub id : String
  pub parent : String

abbrev pub Environment : Type 0
Environment = Resource EnvironmentParameters EnvironmentInitParameters EnvironmentObservation
