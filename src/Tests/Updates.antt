-- ===== src/Tests/Updates.antt =====
-- Update of internal/controller/sdkconnection/sdkconnection.go over a service that holds one connection.
use text.Mathlib.TextEquality.{eq_iff}
use provider_growthbook.Base.{
  Bool, true, Option, none, some, ◌∷◌, ◌≡◌, refl, inl, ap, sym, ◌∙◌, subst, arith, string_eq,
}
use provider_growthbook.Base.Lists.{elems}
use provider_growthbook.Apis.SdkConnection.{SdkConnection}
use provider_growthbook.Controller.Managed.{ExternalObservation}
use provider_growthbook.Growthbook.Errors.{Result, ok, err, plain}
use provider_growthbook.Growthbook.SdkConnection.{
  SdkConnection as ApiConnection, SdkConnectionRequest,
}
use provider_growthbook.SdkConnection.Convert.{observation, request}
use provider_growthbook.SdkConnection.External.{
  SdkConnectionClient, connection_details, observe, update,
}
use provider_growthbook.SdkConnection.Converge.{
  SwitchStored, SwitchesStored, IsStoredConnection, CanStore, StoresConnections,
  observe-update_connection,
}
use provider_growthbook.Tests.Lifecycle.{
  patched, patched_set, patched_text, TextPatched-patched, FieldPatched-patched, SetPatched-patched,
}
use provider_growthbook.Tests.Connections.{web_stored, web_connection}

abbrev switched : Option Bool → Option Bool → Option Bool
switched none old = old
switched (some b) old = some b

SwitchStored-switched : (o old : Option Bool) → SwitchStored o old (switched o old)
SwitchStored-switched none old = refl
SwitchStored-switched (some b) old = refl

abbrev apply_connection : SdkConnectionRequest → ApiConnection → ApiConnection
apply_connection req old = record old {
  name = patched_text req.name old.name;
  environment = patched_text req.environment old.environment;
  languages = some (req.language ∷ elems old.languages);
  projects = patched_set req.projects old.projects;
  allowed_custom_fields_in_metadata =
      patched_set req.allowed_custom_fields_in_metadata old.allowed_custom_fields_in_metadata;
  sdk_version = patched req.sdk_version old.sdk_version;
  encrypt_payload = patched req.encrypt_payload old.encrypt_payload;
  proxy_enabled = patched req.proxy_enabled old.proxy_enabled;
  proxy_host = patched req.proxy_host old.proxy_host;
  include_visual_experiments =
      switched req.include_visual_experiments old.include_visual_experiments;
  include_draft_experiments = switched req.include_draft_experiments old.include_draft_experiments;
  include_draft_experiment_refs =
      switched req.include_draft_experiment_refs old.include_draft_experiment_refs;
  include_experiment_names = switched req.include_experiment_names old.include_experiment_names;
  include_redirect_experiments =
      switched req.include_redirect_experiments old.include_redirect_experiments;
  include_rule_ids = switched req.include_rule_ids old.include_rule_ids;
  include_project_id_in_metadata =
      switched req.include_project_id_in_metadata old.include_project_id_in_metadata;
  include_custom_fields_in_metadata =
      switched req.include_custom_fields_in_metadata old.include_custom_fields_in_metadata;
  include_tags_in_metadata = switched req.include_tags_in_metadata old.include_tags_in_metadata;
  include_experiment_schedule_in_metadata =
      switched req.include_experiment_schedule_in_metadata
        old.include_experiment_schedule_in_metadata;
  hash_secure_attributes = switched req.hash_secure_attributes old.hash_secure_attributes;
  remote_eval_enabled = switched req.remote_eval_enabled old.remote_eval_enabled;
  saved_group_references_enabled =
      switched req.saved_group_references_enabled old.saved_group_references_enabled;
  include_referenced_prerequisites =
      switched req.include_referenced_prerequisites old.include_referenced_prerequisites;
}

apply_connection-SwitchesStored :
    (req : SdkConnectionRequest) (old : ApiConnection)
    → SwitchesStored req old (apply_connection req old)
apply_connection-SwitchesStored req old = record {
  include_visual_experiments =
      SwitchStored-switched req.include_visual_experiments old.include_visual_experiments;
  include_draft_experiments =
      SwitchStored-switched req.include_draft_experiments old.include_draft_experiments;
  include_draft_experiment_refs =
      SwitchStored-switched req.include_draft_experiment_refs old.include_draft_experiment_refs;
  include_experiment_names =
      SwitchStored-switched req.include_experiment_names old.include_experiment_names;
  include_redirect_experiments =
      SwitchStored-switched req.include_redirect_experiments old.include_redirect_experiments;
  include_rule_ids = SwitchStored-switched req.include_rule_ids old.include_rule_ids;
  include_project_id_in_metadata =
      SwitchStored-switched req.include_project_id_in_metadata old.include_project_id_in_metadata;
  include_custom_fields_in_metadata =
      SwitchStored-switched req.include_custom_fields_in_metadata
        old.include_custom_fields_in_metadata;
  include_tags_in_metadata =
      SwitchStored-switched req.include_tags_in_metadata old.include_tags_in_metadata;
  include_experiment_schedule_in_metadata =
      SwitchStored-switched req.include_experiment_schedule_in_metadata
        old.include_experiment_schedule_in_metadata;
  hash_secure_attributes =
      SwitchStored-switched req.hash_secure_attributes old.hash_secure_attributes;
  remote_eval_enabled = SwitchStored-switched req.remote_eval_enabled old.remote_eval_enabled;
  saved_group_references_enabled =
      SwitchStored-switched req.saved_group_references_enabled old.saved_group_references_enabled;
  include_referenced_prerequisites =
      SwitchStored-switched req.include_referenced_prerequisites
        old.include_referenced_prerequisites;
}

apply_connection-IsStoredConnection :
    (req : SdkConnectionRequest) (old : ApiConnection)
    → IsStoredConnection req old (apply_connection req old)
apply_connection-IsStoredConnection req old = record {
  name = TextPatched-patched req.name old.name;
  environment = TextPatched-patched req.environment old.environment;
  language = λ h. inl refl;
  projects = SetPatched-patched req.projects old.projects;
  allowed_custom_fields_in_metadata =
      SetPatched-patched req.allowed_custom_fields_in_metadata
        old.allowed_custom_fields_in_metadata;
  sdk_version = FieldPatched-patched req.sdk_version old.sdk_version;
  encrypt_payload = FieldPatched-patched req.encrypt_payload old.encrypt_payload;
  proxy_enabled = FieldPatched-patched req.proxy_enabled old.proxy_enabled;
  proxy_host = FieldPatched-patched req.proxy_host old.proxy_host;
  switches = apply_connection-SwitchesStored req old;
}

abbrev held_connection : SdkConnectionClient ApiConnection
held_connection = record {
  get_sdk_connection = λ id sc. (ok sc, sc);
  create_sdk_connection = λ req sc. (err (plain "unsupported"), sc);
  update_sdk_connection = λ id req sc. (ok (apply_connection req sc), apply_connection req sc);
  delete_sdk_connection = λ id sc. (err (plain "unsupported"), sc);
}

answer :
    (a sc v w' : ApiConnection)
    → ◌≡◌ {A = Result ApiConnection × ApiConnection} (ok a, v) (ok sc, w')
    → (a ≡ sc) × (v ≡ w')
answer a sc v w' h = (ground arith, ap (λ r. r.1) h)

held_connection-StoresConnections : StoresConnections held_connection
held_connection-StoresConnections id req w w' old sc had sent =
    let start : w ≡ old = ground arith in
    let (same, world) = answer (apply_connection req w) sc (apply_connection req w) w' sent in
    (
      ap (λ s. ok s) (sym world ∙ same),
      subst (λ o. IsStoredConnection req o sc) start
          (subst (λ n. IsStoredConnection req w n) same
            (apply_connection-IsStoredConnection req w)),
    )

abbrev named_connection : SdkConnection
named_connection = record web_connection { external_name = "sdk_1" }

named_connection-CanStore : CanStore named_connection.for_provider web_stored
named_connection-CanStore = record {
  name = λ e. ground (arith, eq_iff "web" "");
  environment = λ e. ground (arith, eq_iff "production" "");
  language = λ e. ground (arith, eq_iff "react" "");
  projects = ground arith;
  allowed_custom_fields_in_metadata = ground arith;
}

abbrev named_stored : ApiConnection
named_stored = apply_connection (request named_connection.for_provider) web_stored

abbrev named_after : SdkConnection
named_after = record named_connection { at_provider = observation named_stored }

named-update :
    update held_connection named_connection web_stored
    ≡ (ok (connection_details named_stored), named_after, named_stored)
unfolding update
named-update = refl

observe-update_connection_example :
    (o : ExternalObservation) × ((observe held_connection named_after named_stored).0 ≡ ok o)
    × (o.resource_exists ≡ true)
    × (o.resource_up_to_date ≡ true)
    × (o.connection_details ≡ connection_details named_stored)
observe-update_connection_example =
    observe-update_connection held_connection named_connection named_after web_stored named_stored
      web_stored (connection_details named_stored) held_connection-StoresConnections
      (λ e. ground (arith, eq_iff "sdk_1" "")) refl named_connection-CanStore named-update
