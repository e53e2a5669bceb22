-- ===== src/Growthbook/SdkConnection.antt =====
-- internal/clients/growthbook/sdkconnection.go
use provider_growthbook.Base.{String, Bool, Option, List}

pub record SdkConnection : Type 0 where
  pub id : String
  pub date_created : String
  pub date_updated : String
  pub name : String
  pub organization : String
  pub languages : Option (List String)
  pub sdk_version : String
  pub environment : String
  pub project : String
  pub projects : Option (List String)
  pub encrypt_payload : Bool
  pub encryption_key : String
  pub include_visual_experiments : Option Bool
  pub include_draft_experiments : Option Bool
  pub include_draft_experiment_refs : Option Bool
  pub include_experiment_names : Option Bool
  pub include_redirect_experiments : Option Bool
  pub include_rule_ids : Option Bool
  pub include_project_id_in_metadata : Option Bool
  pub include_custom_fields_in_metadata : Option Bool
  pub allowed_custom_fields_in_metadata : Option (List String)
  pub include_tags_in_metadata : Option Bool
  pub include_experiment_schedule_in_metadata : Option Bool
  pub key : String
  pub proxy_enabled : Bool
  pub proxy_host : String
  pub proxy_signing_key : String
  pub sse_enabled : Option Bool
  pub hash_secure_attributes : Option Bool
  pub remote_eval_enabled : Option Bool
  pub saved_group_references_enabled : Option Bool
  pub include_referenced_prerequisites : Option Bool
  pub connected : Option Bool

pub record SdkConnectionRequest : Type 0 where
  pub name : String
  pub language : String
  pub environment : String
  pub sdk_version : Option String
  pub projects : Option (List String)
  pub encrypt_payload : Option Bool
  pub include_visual_experiments : Option Bool
  pub include_draft_experiments : Option Bool
  pub include_draft_experiment_refs : Option Bool
  pub include_experiment_names : Option Bool
  pub include_redirect_experiments : Option Bool
  pub include_rule_ids : Option Bool
  pub include_project_id_in_metadata : Option Bool
  pub include_custom_fields_in_metadata : Option Bool
  pub allowed_custom_fields_in_metadata : Option (List String)
  pub include_tags_in_metadata : Option Bool
  pub include_experiment_schedule_in_metadata : Option Bool
  pub proxy_enabled : Option Bool
  pub proxy_host : Option String
  pub hash_secure_attributes : Option Bool
  pub remote_eval_enabled : Option Bool
  pub saved_group_references_enabled : Option Bool
  pub include_referenced_prerequisites : Option Bool
