-- ===== src/SdkConnection/Matches.antt =====
-- What "up to date" means for an SDKConnection, field by field: the specification of `isUpToDate` of
-- internal/controller/sdkconnection/convert.go.
use provider_growthbook.Base.{String, Bool, Option, none, some, List, [], ◌∷◌, ◌≡◌, ◌⊎◌}
use provider_growthbook.Base.Lists.{elems}
use provider_growthbook.Apis.SdkConnection.{SdkConnectionParameters}
use provider_growthbook.Growthbook.SdkConnection.{SdkConnection as ApiConnection}
use provider_growthbook.Feature.Matches.{Agrees, AgreesAsSet}

-- The desired language is one of the reported ones.
abbrev pub Occurs : String → List String → Type 0
Occurs desired [] = ⊥
Occurs desired (l ∷ actual) = (l ≡ desired) ⊎ Occurs desired actual

-- A switch that the user set is reported with that value.
abbrev pub Switched : Option Bool → Option Bool → Type 0
Switched none actual = Unit
Switched (some desired) actual = actual ≡ some desired

pub record SwitchesMatch (p : SdkConnectionParameters) (sc : ApiConnection) : Type 0 where
  pub include_visual_experiments :
      Switched p.include_visual_experiments sc.include_visual_experiments
  pub include_draft_experiments : Switched p.include_draft_experiments sc.include_draft_experiments
  pub include_draft_experiment_refs :
      Switched p.include_draft_experiment_refs sc.include_draft_experiment_refs
  pub include_experiment_names : Switched p.include_experiment_names sc.include_experiment_names
  pub include_redirect_experiments :
      Switched p.include_redirect_experiments sc.include_redirect_experiments
  pub include_rule_ids : Switched p.include_rule_ids sc.include_rule_ids
  pub include_project_id_in_metadata :
      Switched p.include_project_id_in_metadata sc.include_project_id_in_metadata
  pub include_custom_fields_in_metadata :
      Switched p.include_custom_fields_in_metadata sc.include_custom_fields_in_metadata
  pub include_tags_in_metadata : Switched p.include_tags_in_metadata sc.include_tags_in_metadata
  pub include_experiment_schedule_in_metadata :
      Switched p.include_experiment_schedule_in_metadata sc.include_experiment_schedule_in_metadata
  pub hash_secure_attributes : Switched p.hash_secure_attributes sc.hash_secure_attributes
  pub remote_eval_enabled : Switched p.remote_eval_enabled sc.remote_eval_enabled
  pub saved_group_references_enabled :
      Switched p.saved_group_references_enabled sc.saved_group_references_enabled
  pub include_referenced_prerequisites :
      Switched p.include_referenced_prerequisites sc.include_referenced_prerequisites

pub record ConnectionMatches (p : SdkConnectionParameters) (sc : ApiConnection) : Type 0 where
  pub name : p.name ≡ sc.name
  pub environment : p.environment ≡ sc.environment
  pub language : Occurs p.language (elems sc.languages)
  pub projects : AgreesAsSet p.projects sc.projects
  pub allowed_custom_fields_in_metadata :
      AgreesAsSet p.allowed_custom_fields_in_metadata sc.allowed_custom_fields_in_metadata
  pub sdk_version : Agrees p.sdk_version sc.sdk_version
  pub encrypt_payload : Agrees p.encrypt_payload sc.encrypt_payload
  pub proxy_enabled : Agrees p.proxy_enabled sc.proxy_enabled
  pub proxy_host : Agrees p.proxy_host sc.proxy_host
  pub switches : SwitchesMatch p sc
