-- ===== src/Growthbook/Project.antt =====
-- internal/clients/growthbook/project.go
use provider_growthbook.Base.{String, Bool, Option}

pub record ProjectSettings (Float : Type 0) : Type 0 where
  pub stats_engine : Option String
  pub confidence_level : Option Float
  pub p_value_threshold : Option Float

pub record Project (Float : Type 0) : Type 0 where
  pub id : String
  pub name : String
  pub description : String
  pub public_id : String
  pub restrict_access : Option Bool
  pub settings : Option (ProjectSettings Float)
  pub date_created : String
  pub date_updated : String

pub record ProjectRequest (Float : Type 0) : Type 0 where
  pub name : String
  pub description : Option String
  pub public_id : Option String
  pub restrict_access : Option Bool
  pub settings : Option (ProjectSettings Float)
