-- ===== src/Tests/Connections.antt =====
-- internal/controller/sdkconnection at a concrete spec and answer.
use provider_growthbook.Base.{
  ℕ, suc, true, false, none, some, [], ◌∷◌, ◌≡◌, ◌≢◌, ◌↔◌, refl, arith, ap, subst, string_eq,
}
use provider_growthbook.Base.Lists.{lookup, All}
use provider_growthbook.Apis.SdkConnection.{
  SdkConnection, SdkConnectionParameters, SdkConnectionInitParameters,
}
use provider_growthbook.Controller.Managed.{ExternalObservation}
use provider_growthbook.Growthbook.Errors.{Result, ok}
use provider_growthbook.Growthbook.SdkConnection.{SdkConnection as ApiConnection}
use provider_growthbook.SdkConnection.Convert.{is_up_to_date, observation}
use provider_growthbook.SdkConnection.Matches.{ConnectionMatches}
use provider_growthbook.SdkConnection.Drift.{is_up_to_date-ConnectionMatches_iff}
use provider_growthbook.SdkConnection.External.{
  SdkConnectionClient, connection_details, observe, create,
}
use provider_growthbook.SdkConnection.Details.{
  published, IsDetailKey, connection_details-lookup, ReadsBack, observe-create,
}
use text.Mathlib.TextEquality.{eq_iff}

abbrev web : SdkConnectionParameters
web = record {
  name = "web";
  language = "react";
  environment = "production";
  projects = some ("p1" ∷ "p2" ∷ []);
  sdk_version = none;
  encrypt_payload = some false;
  include_visual_experiments = none;
  include_draft_experiments = none;
  include_draft_experiment_refs = none;
  include_experiment_names = none;
  include_redirect_experiments = none;
  include_rule_ids = some true;
  include_project_id_in_metadata = none;
  include_custom_fields_in_metadata = none;
  allowed_custom_fields_in_metadata = none;
  include_tags_in_metadata = none;
  include_experiment_schedule_in_metadata = none;
  proxy_enabled = none;
  proxy_host = none;
  hash_secure_attributes = none;
  remote_eval_enabled = none;
  saved_group_references_enabled = none;
  include_referenced_prerequisites = none;
}

abbrev web_init : SdkConnectionInitParameters
web_init = record {
  name = none;
  language = none;
  environment = none;
  projects = none;
  sdk_version = none;
  encrypt_payload = none;
  include_visual_experiments = none;
  include_draft_experiments = none;
  include_draft_experiment_refs = none;
  include_experiment_names = none;
  include_redirect_experiments = none;
  include_rule_ids = none;
  include_project_id_in_metadata = none;
  include_custom_fields_in_metadata = none;
  allowed_custom_fields_in_metadata = none;
  include_tags_in_metadata = none;
  include_experiment_schedule_in_metadata = none;
  proxy_enabled = none;
  proxy_host = some "proxy";
  hash_secure_attributes = none;
  remote_eval_enabled = none;
  saved_group_references_enabled = none;
  include_referenced_prerequisites = none;
}

abbrev pub web_stored : ApiConnection
web_stored = record {
  id = "sdk_1";
  date_created = "";
  date_updated = "";
  name = "web";
  organization = "";
  languages = some ("javascript" ∷ "react" ∷ []);
  sdk_version = "";
  environment = "production";
  project = "";
  projects = some ("p2" ∷ "p1" ∷ []);
  encrypt_payload = false;
  encryption_key = "";
  include_visual_experiments = none;
  include_draft_experiments = none;
  include_draft_experiment_refs = none;
  include_experiment_names = none;
  include_redirect_experiments = none;
  include_rule_ids = some true;
  include_project_id_in_metadata = none;
  include_custom_fields_in_metadata = none;
  allowed_custom_fields_in_metadata = none;
  include_tags_in_metadata = none;
  include_experiment_schedule_in_metadata = none;
  key = "sdk-key";
  proxy_enabled = false;
  proxy_host = "";
  proxy_signing_key = "";
  sse_enabled = none;
  hash_secure_attributes = none;
  remote_eval_enabled = none;
  saved_group_references_enabled = none;
  include_referenced_prerequisites = none;
  connected = none;
}

is_up_to_date-ConnectionMatches_iff_example :
    (is_up_to_date web web_stored ≡ true) ↔ ConnectionMatches web web_stored
is_up_to_date-ConnectionMatches_iff_example = is_up_to_date-ConnectionMatches_iff web web_stored

connection_details-lookup_example :
    (lookup "key" (connection_details web_stored) ≡ published "sdk-key")
    × (lookup "proxySigningKey" (connection_details web_stored) ≡ published "")
    × (lookup "proxyHost" (connection_details web_stored) ≡ published "")
    × (lookup "encryptionKey" (connection_details web_stored) ≡ none)
    × All (λ entry. IsDetailKey entry.0) (connection_details web_stored)
    × (connection_details (record web_stored { proxy_enabled = true })
        ≡ connection_details web_stored)
connection_details-lookup_example = connection_details-lookup web_stored true

abbrev pub web_connection : SdkConnection
web_connection = record {
  namespace = "default";
  provider_config_reference = record { kind = "ProviderConfig"; name = "default" };
  external_name = "";
  for_provider = web;
  init_provider = web_init;
  at_provider = record {
    id = "";
    organization = "";
    languages = none;
    project = "";
    date_created = "";
    date_updated = "";
    connected = none;
    sse_enabled = none;
  };
  available = false;
}

-- A service with one connection; its world counts the requests.
abbrev one_connection : SdkConnectionClient ℕ
one_connection = record {
  get_sdk_connection = λ id n. (ok web_stored, suc n);
  create_sdk_connection = λ req n. (ok web_stored, suc n);
  update_sdk_connection = λ id req n. (ok web_stored, suc n);
  delete_sdk_connection = λ id n. (ok tt, suc n);
}

answer_id :
    (sc : ApiConnection) (n m : ℕ)
    → ◌≡◌ {A = Result ApiConnection × ℕ} (ok web_stored, n) (ok sc, m)
    → web_stored ≡ sc
answer_id sc n m h = ground arith

one_connection-ReadsBack : ReadsBack one_connection
one_connection-ReadsBack req w w' sc h =
    let same : web_stored ≡ sc = answer_id sc (suc w) w' h in
    (subst (λ s. s.id ≢ "") same (ground (arith, eq_iff "sdk_1" "")), ap (λ s. ok s) same)

abbrev web_after : SdkConnection
web_after = record web_connection { external_name = "sdk_1"; at_provider = observation web_stored }

web-create :
    create one_connection web_connection 0 ≡ (ok (connection_details web_stored), web_after, 1)
unfolding create
web-create = refl

observe-create_example :
    (sc : ApiConnection) × ((one_connection.get_sdk_connection "sdk_1" 1).0 ≡ ok sc)
    × (o : ExternalObservation) × ((observe one_connection web_after 1).0 ≡ ok o)
    × (o.resource_exists ≡ true)
    × (o.connection_details ≡ connection_details web_stored)
    × ((o.resource_up_to_date ≡ true) ↔ ConnectionMatches web sc)
observe-create_example =
    observe-create one_connection web_connection web_after 0 1 (connection_details web_stored)
      one_connection-ReadsBack web-create
