-- ===== src/SdkConnection/Convert.antt =====
-- internal/controller/sdkconnection/convert.go. A function that writes through a pointer returns the
-- new parameters.
use provider_growthbook.Base.{
  String, Bool, true, false, not, ◌&&◌, Option, none, some, List, [], ◌∷◌, ◌==◌, ◌!=◌, nat_eq,
  string_eq, bool_eq, if◌then◌else◌,
}
use provider_growthbook.Base.Lists.{length, elems}
use provider_growthbook.Base.Sort.{sort_strings}
use provider_growthbook.Apis.SdkConnection.{
  SdkConnectionParameters, SdkConnectionInitParameters, SdkConnectionObservation,
}
use provider_growthbook.Growthbook.SdkConnection.{
  SdkConnection as ApiConnection, SdkConnectionRequest,
}
use provider_growthbook.Feature.RulesDrift.{pairwise}
use provider_growthbook.Feature.Convert.{fill_text, fill, text_differs, flag_differs}

unfoldable pub merge_identity_fields :
    SdkConnectionParameters → SdkConnectionInitParameters → SdkConnectionParameters
merge_identity_fields p ip = record p {
  name = fill_text p.name ip.name;
  language = fill_text p.language ip.language;
  environment = fill_text p.environment ip.environment;
}

unfoldable pub merge_scope_fields :
    SdkConnectionParameters → SdkConnectionInitParameters → SdkConnectionParameters
merge_scope_fields p ip = record p {
  projects = fill p.projects ip.projects;
  allowed_custom_fields_in_metadata =
      fill p.allowed_custom_fields_in_metadata ip.allowed_custom_fields_in_metadata;
}

unfoldable pub merge_scalar_fields :
    SdkConnectionParameters → SdkConnectionInitParameters → SdkConnectionParameters
merge_scalar_fields p ip = record p {
  sdk_version = fill p.sdk_version ip.sdk_version;
  proxy_host = fill p.proxy_host ip.proxy_host;
}

-- The table of pairs, each of which is another field.
unfoldable pub merge_bool_fields :
    SdkConnectionParameters → SdkConnectionInitParameters → SdkConnectionParameters
merge_bool_fields p ip = record p {
  encrypt_payload = fill p.encrypt_payload ip.encrypt_payload;
  include_visual_experiments = fill p.include_visual_experiments ip.include_visual_experiments;
  include_draft_experiments = fill p.include_draft_experiments ip.include_draft_experiments;
  include_draft_experiment_refs =
      fill p.include_draft_experiment_refs ip.include_draft_experiment_refs;
  include_experiment_names = fill p.include_experiment_names ip.include_experiment_names;
  include_redirect_experiments =
      fill p.include_redirect_experiments ip.include_redirect_experiments;
  include_rule_ids = fill p.include_rule_ids ip.include_rule_ids;
  include_project_id_in_metadata =
      fill p.include_project_id_in_metadata ip.include_project_id_in_metadata;
  include_custom_fields_in_metadata =
      fill p.include_custom_fields_in_metadata ip.include_custom_fields_in_metadata;
  include_tags_in_metadata = fill p.include_tags_in_metadata ip.include_tags_in_metadata;
  include_experiment_schedule_in_metadata =
      fill p.include_experiment_schedule_in_metadata ip.include_experiment_schedule_in_metadata;
  proxy_enabled = fill p.proxy_enabled ip.proxy_enabled;
  hash_secure_attributes = fill p.hash_secure_attributes ip.hash_secure_attributes;
  remote_eval_enabled = fill p.remote_eval_enabled ip.remote_eval_enabled;
  saved_group_references_enabled =
      fill p.saved_group_references_enabled ip.saved_group_references_enabled;
  include_referenced_prerequisites =
      fill p.include_referenced_prerequisites ip.include_referenced_prerequisites;
}

unfoldable pub merge_init_provider :
    SdkConnectionParameters → SdkConnectionInitParameters → SdkConnectionParameters
unfolding merge_identity_fields merge_scope_fields merge_scalar_fields merge_bool_fields
merge_init_provider p ip =
    merge_bool_fields (merge_scalar_fields (merge_scope_fields (merge_identity_fields p ip) ip) ip)
      ip

unfoldable pub request : SdkConnectionParameters → SdkConnectionRequest
request p = record {
  name = p.name;
  language = p.language;
  environment = p.environment;
  sdk_version = p.sdk_version;
  projects = p.projects;
  encrypt_payload = p.encrypt_payload;
  include_visual_experiments = p.include_visual_experiments;
  include_draft_experiments = p.include_draft_experiments;
  include_draft_experiment_refs = p.include_draft_experiment_refs;
  include_experiment_names = p.include_experiment_names;
  include_redirect_experiments = p.include_redirect_experiments;
  include_rule_ids = p.include_rule_ids;
  include_project_id_in_metadata = p.include_project_id_in_metadata;
  include_custom_fields_in_metadata = p.include_custom_fields_in_metadata;
  allowed_custom_fields_in_metadata = p.allowed_custom_fields_in_metadata;
  include_tags_in_metadata = p.include_tags_in_metadata;
  include_experiment_schedule_in_metadata = p.include_experiment_schedule_in_metadata;
  proxy_enabled = p.proxy_enabled;
  proxy_host = p.proxy_host;
  hash_secure_attributes = p.hash_secure_attributes;
  remote_eval_enabled = p.remote_eval_enabled;
  saved_group_references_enabled = p.saved_group_references_enabled;
  include_referenced_prerequisites = p.include_referenced_prerequisites;
}

unfoldable pub create_request :
    SdkConnectionParameters → SdkConnectionInitParameters → SdkConnectionRequest
create_request p ip = request (merge_init_provider p ip)

unfoldable pub observation : ApiConnection → SdkConnectionObservation
observation sc = record {
  id = sc.id;
  organization = sc.organization;
  languages = sc.languages;
  project = sc.project;
  date_created = sc.date_created;
  date_updated = sc.date_updated;
  connected = sc.connected;
  sse_enabled = sc.sse_enabled;
}

-- The loop of `languageMatches` over the reported languages.
unfoldable pub language_in : String → List String → Bool
language_in desired [] = false
language_in desired (l ∷ actual) = if l == desired then true else language_in desired actual

unfoldable pub language_matches : String → Option (List String) → Bool
unfolding language_in
language_matches desired actual = language_in desired (elems actual)

unfoldable pub normalize : Option (List String) → List String
normalize s = sort_strings (elems s)

unfoldable pub string_slices_equal : List String → List String → Bool
unfolding pairwise
string_slices_equal a b = if length a != length b then false else pairwise (λ x y. x == y) a b

-- `p.X != nil && !stringSlicesEqual(normalize(p.X), normalize(sc.X))`
abbrev pub slices_differ : Option (List String) → Option (List String) → Bool
slices_differ none ext = false
slices_differ (some p) ext = not (string_slices_equal (normalize (some p)) (normalize ext))

unfoldable pub identity_fields_up_to_date : SdkConnectionParameters → ApiConnection → Bool
identity_fields_up_to_date p sc =
    p.name == sc.name && p.environment == sc.environment && language_matches p.language sc.languages

unfoldable pub scope_fields_up_to_date : SdkConnectionParameters → ApiConnection → Bool
scope_fields_up_to_date p sc =
    if slices_differ p.projects sc.projects
    then false
    else if slices_differ p.allowed_custom_fields_in_metadata sc.allowed_custom_fields_in_metadata
    then false
    else true

unfoldable pub scalar_fields_up_to_date : SdkConnectionParameters → ApiConnection → Bool
scalar_fields_up_to_date p sc =
    if text_differs p.sdk_version sc.sdk_version
    then false
    else if flag_differs p.encrypt_payload sc.encrypt_payload
    then false
    else if flag_differs p.proxy_enabled sc.proxy_enabled
    then false
    else if text_differs p.proxy_host sc.proxy_host
    then false
    else true

-- `c.desired != nil && (c.actual == nil || *c.desired != *c.actual)`
abbrev pub check_fails : Option Bool × Option Bool → Bool
check_fails (none, actual) = false
check_fails (some desired, none) = true
check_fails (some desired, some actual) = desired != actual

abbrev pub bool_checks : SdkConnectionParameters → ApiConnection → List (Option Bool × Option Bool)
bool_checks p sc =
    (p.include_visual_experiments, sc.include_visual_experiments)
    ∷ (p.include_draft_experiments, sc.include_draft_experiments)
    ∷ (p.include_draft_experiment_refs, sc.include_draft_experiment_refs)
    ∷ (p.include_experiment_names, sc.include_experiment_names)
    ∷ (p.include_redirect_experiments, sc.include_redirect_experiments)
    ∷ (p.include_rule_ids, sc.include_rule_ids)
    ∷ (p.include_project_id_in_metadata, sc.include_project_id_in_metadata)
    ∷ (p.include_custom_fields_in_metadata, sc.include_custom_fields_in_metadata)
    ∷ (p.include_tags_in_metadata, sc.include_tags_in_metadata)
    ∷ (p.include_experiment_schedule_in_metadata, sc.include_experiment_schedule_in_metadata)
    ∷ (p.hash_secure_attributes, sc.hash_secure_attributes)
    ∷ (p.remote_eval_enabled, sc.remote_eval_enabled)
    ∷ (p.saved_group_references_enabled, sc.saved_group_references_enabled)
    ∷ (p.include_referenced_prerequisites, sc.include_referenced_prerequisites)
    ∷ []

unfoldable pub checks_pass : List (Option Bool × Option Bool) → Bool
checks_pass [] = true
checks_pass (c ∷ checks) = if check_fails c then false else checks_pass checks

unfoldable pub bool_fields_up_to_date : SdkConnectionParameters → ApiConnection → Bool
bool_fields_up_to_date p sc = checks_pass (bool_checks p sc)

unfoldable pub is_up_to_date : SdkConnectionParameters → ApiConnection → Bool
is_up_to_date p sc =
    identity_fields_up_to_date p sc
    && scope_fields_up_to_date p sc
    && scalar_fields_up_to_date p sc
    && bool_fields_up_to_date p sc
