-- ===== src/Apis/Project.antt =====
-- apis/core/v1alpha1/project_types.go
use provider_growthbook.Apis.Config.{Resource}
use provider_growthbook.Base.{String, Bool, Option}

pub record ProjectSettings : Type 0 where
  pub stats_engine : Option String
  pub confidence_level : Option String
  pub p_value_threshold : Option String

pub record ProjectParameters : Type 0 where
  pub name : String
  pub description : Option String
  pub public_id : Option String
  pub restrict_access : Option Bool
  pub settings : Option ProjectSettings

pub record ProjectInitParameters : Type 0 where
  pub name : Option String
  pub description : Option String
  pub public_id : Option String
  pub restrict_access : Option Bool
  pub settings : Option ProjectSettings

pub record ProjectObservation : Type 0 where
  pub id : String
  pub public_id : String
  pub date_created : String
  pub date_updated : String

abbrev pub Project : Type 0
Project = Resource ProjectParameters ProjectInitParameters ProjectObservation
