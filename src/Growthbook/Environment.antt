-- ===== src/Growthbook/Environment.antt =====
-- internal/clients/growthbook/environment.go
use provider_growthbook.Base.{String, Bool, Option, List}

pub record Environment : Type 0 where
  pub id : String
  pub description : String
  pub toggle_on_list : Bool
  pub default_state : Bool
  pub projects : Option (List String)
  pub parent : String

pub record EnvironmentRequest : Type 0 where
  pub id : String
  pub description : Option String
  pub toggle_on_list : Option Bool
  pub default_state : Option Bool
  pub projects : Option (List String)
  pub parent : Option String
