-- ===== src/Growthbook/Calls/SdkConnection.antt =====
-- internal/clients/growthbook/sdkconnection.go: the methods of `Client`, and the members of a request.
use provider_growthbook.Base.{String, false, Option, none, some, List, ◌++◌}
use provider_growthbook.Growthbook.Errors.{Result, ok, err}
use provider_growthbook.Growthbook.Text.{Bytes, utf8, path_escape}
use provider_growthbook.Growthbook.Json.{
  Json, bool, text, Fields, end, object, omit_text, omit_pointer, omit_slice,
}
use provider_growthbook.Growthbook.Credentials.{Client}
use provider_growthbook.Growthbook.Http.{Method, get, post, put, delete, Platform, do_request}
use provider_growthbook.Growthbook.SdkConnection.{SdkConnection, SdkConnectionRequest}

pub record SdkConnectionEnvelope : Type 0 where
  pub sdk_connection : SdkConnection

pub record SdkConnectionListEnvelope : Type 0 where
  pub connections : Option (List SdkConnection)

abbrev empty_sdk_connection : SdkConnection
empty_sdk_connection = record {
  id = "";
  date_created = "";
  date_updated = "";
  name = "";
  organization = "";
  languages = none;
  sdk_version = "";
  environment = "";
  project = "";
  projects = none;
  encrypt_payload = false;
  encryption_key = "";
  include_visual_experiments = none;
  include_draft_experiments = none;
  include_draft_experiment_refs = none;
  include_experiment_names = none;
  include_redirect_experiments = none;
  include_rule_ids = none;
  include_project_id_in_metadata = none;
  include_custom_fields_in_metadata = none;
  allowed_custom_fields_in_metadata = none;
  include_tags_in_metadata = none;
  include_experiment_schedule_in_metadata = none;
  key = "";
  proxy_enabled = false;
  proxy_host = "";
  proxy_signing_key = "";
  sse_enabled = none;
  hash_secure_attributes = none;
  remote_eval_enabled = none;
  saved_group_references_enabled = none;
  include_referenced_prerequisites = none;
  connected = none;
}

abbrev pub sdk_connection_path : String → Bytes
unfolding utf8 path_escape
sdk_connection_path id = utf8 "/v1/sdk-connections/" ++ path_escape (utf8 id)

module _ {Float : Type 0} where
  unfoldable pub sdk_connection_fields : SdkConnectionRequest → Fields Float
  sdk_connection_fields req = omit_text "name" req.name (
      omit_text "language" req.language (
        omit_text "environment" req.environment (
          omit_pointer text "sdkVersion" req.sdk_version (
            omit_slice text "projects" req.projects (
              omit_pointer bool "encryptPayload" req.encrypt_payload (
                omit_pointer bool "includeVisualExperiments" req.include_visual_experiments (
                  omit_pointer bool "includeDraftExperiments" req.include_draft_experiments (
                    omit_pointer bool "includeDraftExperimentRefs" req.include_draft_experiment_refs
                      (omit_pointer bool "includeExperimentNames" req.include_experiment_names (
                        omit_pointer bool "includeRedirectExperiments"
                          req.include_redirect_experiments
                          (omit_pointer bool "includeRuleIds" req.include_rule_ids (
                            omit_pointer bool "includeProjectIdInMetadata"
                              req.include_project_id_in_metadata
                              (omit_pointer bool "includeCustomFieldsInMetadata"
                                req.include_custom_fields_in_metadata
                                (omit_slice text "allowedCustomFieldsInMetadata"
                                  req.allowed_custom_fields_in_metadata
                                  (omit_pointer bool "includeTagsInMetadata"
                                    req.include_tags_in_metadata
                                    (omit_pointer bool "includeExperimentScheduleInMetadata"
                                      req.include_experiment_schedule_in_metadata
                                      (omit_pointer bool "proxyEnabled" req.proxy_enabled (
                                        omit_pointer text "proxyHost" req.proxy_host (
                                          omit_pointer bool "hashSecureAttributes"
                                            req.hash_secure_attributes
                                            (omit_pointer bool "remoteEvalEnabled"
                                              req.remote_eval_enabled
                                              (omit_pointer bool "savedGroupReferencesEnabled"
                                                req.saved_group_references_enabled
                                                (omit_pointer bool "includeReferencedPrerequisites"
                                                  req.include_referenced_prerequisites
                                                  end))))))))))))))))))))))

module _ {Float W : Type 0} (platform : Platform Float W) (c : Client) where
  module _ (unmarshal : Bytes → Option SdkConnectionListEnvelope) where
    abbrev listed : Result SdkConnectionListEnvelope × W → Result (Option (List SdkConnection)) × W
    listed (ok out, w) = (ok out.connections, w)
    listed (err e, w) = (err e, w)

    unfoldable pub list_sdk_connections : W → Result (Option (List SdkConnection)) × W
    list_sdk_connections w = listed (
        do_request platform c (some unmarshal) (record { connections = none }) get
          (utf8 "/v1/sdk-connections") none w)

  module _ (unmarshal : Bytes → Option SdkConnectionEnvelope) where
    abbrev envelope_sdk_connection : Result SdkConnectionEnvelope × W → Result SdkConnection × W
    envelope_sdk_connection (ok out, w) = (ok out.sdk_connection, w)
    envelope_sdk_connection (err e, w) = (err e, w)

    abbrev sdk_connection_call : Method → Bytes → Option (Json Float) → W → Result SdkConnection × W
    sdk_connection_call method path body w = envelope_sdk_connection (
        do_request platform c (some unmarshal) (record { sdk_connection = empty_sdk_connection })
          method path body w)

    unfoldable pub get_sdk_connection : String → W → Result SdkConnection × W
    get_sdk_connection id = sdk_connection_call get (sdk_connection_path id) none

    unfoldable pub create_sdk_connection : SdkConnectionRequest → W → Result SdkConnection × W
    create_sdk_connection req =
        sdk_connection_call post (utf8 "/v1/sdk-connections")
          (some (object (sdk_connection_fields req)))

    unfoldable pub update_sdk_connection :
        String → SdkConnectionRequest → W → Result SdkConnection × W
    update_sdk_connection id req =
        sdk_connection_call put (sdk_connection_path id) (some (object (sdk_connection_fields req)))

  unfoldable pub delete_sdk_connection : String → W → Result (Unit {0}) × W
  delete_sdk_connection id = do_request platform c none tt delete (sdk_connection_path id) none
