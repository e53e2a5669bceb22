-- ===== src/SdkConnection/Converge.antt =====
-- `request` and `isUpToDate` of internal/controller/sdkconnection, and Update with the Observe after
-- it. The service is GrowthBook's PUT /v1/sdk-connections/{id} as it is documented: a field that the
-- body leaves out (an empty text, a nil pointer, an empty slice) is left as it is, any other is stored,
-- a language as one of the languages of the connection.
use provider_growthbook.Base.{
  String, Bool, true, false, Option, none, some, [], ◌≡◌, ◌≢◌, sym, ◌∙◌, ap, arith, ◌==◌, string_eq,
}
use provider_growthbook.Base.Lists.{elems}
use provider_growthbook.Apis.SdkConnection.{SdkConnection, SdkConnectionParameters}
use provider_growthbook.Controller.Managed.{ExternalObservation, ConnectionDetails}
use provider_growthbook.Growthbook.Errors.{Result, ok, err}
use provider_growthbook.Growthbook.SdkConnection.{
  SdkConnection as ApiConnection, SdkConnectionRequest,
}
use provider_growthbook.Feature.Service.{TextPatched, FieldPatched, SetPatched}
use provider_growthbook.Feature.Reconcile.{field-Agrees, text_agrees, set_agrees}
use provider_growthbook.SdkConnection.Convert.{request, is_up_to_date}
use provider_growthbook.SdkConnection.Matches.{Occurs, Switched, SwitchesMatch, ConnectionMatches}
use provider_growthbook.SdkConnection.Drift.{is_up_to_date-ConnectionMatches_iff}
use provider_growthbook.SdkConnection.External.{
  SdkConnectionClient, connection_details, observe, updated, update,
}
use provider_growthbook.SdkConnection.Details.{found_details}
use text.Mathlib.TextEquality.{eq_iff}

-- A switch that is sent is stored, and one that is not sent is as before.
abbrev pub SwitchStored : Option Bool → Option Bool → Option Bool → Type 0
SwitchStored none old new = new ≡ old
SwitchStored (some b) old new = new ≡ some b

-- The fourteen switches that the service reports only where it has them.
pub record SwitchesStored (req : SdkConnectionRequest) (old new : ApiConnection) : Type 0 where
  pub include_visual_experiments :
      SwitchStored req.include_visual_experiments old.include_visual_experiments
        new.include_visual_experiments
  pub include_draft_experiments :
      SwitchStored req.include_draft_experiments old.include_draft_experiments
        new.include_draft_experiments
  pub include_draft_experiment_refs :
      SwitchStored req.include_draft_experiment_refs old.include_draft_experiment_refs
        new.include_draft_experiment_refs
  pub include_experiment_names :
      SwitchStored req.include_experiment_names old.include_experiment_names
        new.include_experiment_names
  pub include_redirect_experiments :
      SwitchStored req.include_redirect_experiments old.include_redirect_experiments
        new.include_redirect_experiments
  pub include_rule_ids : SwitchStored req.include_rule_ids old.include_rule_ids new.include_rule_ids
  pub include_project_id_in_metadata :
      SwitchStored req.include_project_id_in_metadata old.include_project_id_in_metadata
        new.include_project_id_in_metadata
  pub include_custom_fields_in_metadata :
      SwitchStored req.include_custom_fields_in_metadata old.include_custom_fields_in_metadata
        new.include_custom_fields_in_metadata
  pub include_tags_in_metadata :
      SwitchStored req.include_tags_in_metadata old.include_tags_in_metadata
        new.include_tags_in_metadata
  pub include_experiment_schedule_in_metadata :
      SwitchStored req.include_experiment_schedule_in_metadata
        old.include_experiment_schedule_in_metadata new.include_experiment_schedule_in_metadata
  pub hash_secure_attributes :
      SwitchStored req.hash_secure_attributes old.hash_secure_attributes new.hash_secure_attributes
  pub remote_eval_enabled :
      SwitchStored req.remote_eval_enabled old.remote_eval_enabled new.remote_eval_enabled
  pub saved_group_references_enabled :
      SwitchStored req.saved_group_references_enabled old.saved_group_references_enabled
        new.saved_group_references_enabled
  pub include_referenced_prerequisites :
      SwitchStored req.include_referenced_prerequisites old.include_referenced_prerequisites
        new.include_referenced_prerequisites

-- The connection `new` is what the service holds after the request has changed `old`.
pub record IsStoredConnection (req : SdkConnectionRequest) (old new : ApiConnection) : Type 0 where
  pub name : TextPatched req.name old.name new.name
  pub environment : TextPatched req.environment old.environment new.environment
  pub language : req.language ≢ "" → Occurs req.language (elems new.languages)
  pub projects : SetPatched req.projects old.projects new.projects
  pub allowed_custom_fields_in_metadata :
      SetPatched req.allowed_custom_fields_in_metadata old.allowed_custom_fields_in_metadata
        new.allowed_custom_fields_in_metadata
  pub sdk_version : FieldPatched req.sdk_version old.sdk_version new.sdk_version
  pub encrypt_payload : FieldPatched req.encrypt_payload old.encrypt_payload new.encrypt_payload
  pub proxy_enabled : FieldPatched req.proxy_enabled old.proxy_enabled new.proxy_enabled
  pub proxy_host : FieldPatched req.proxy_host old.proxy_host new.proxy_host
  pub switches : SwitchesStored req old new

-- What the request cannot say is right already: an empty text or list is not sent.
pub record CanStore (p : SdkConnectionParameters) (old : ApiConnection) : Type 0 where
  pub name : p.name ≡ "" → old.name ≡ ""
  pub environment : p.environment ≡ "" → old.environment ≡ ""
  pub language : p.language ≢ ""
  pub projects : p.projects ≡ some [] → elems old.projects ≡ []
  pub allowed_custom_fields_in_metadata :
      p.allowed_custom_fields_in_metadata ≡ some []
      → elems old.allowed_custom_fields_in_metadata ≡ []

switch-Switched : (w old new : Option Bool) → SwitchStored w old new → Switched w new
switch-Switched none old new h = tt
switch-Switched (some b) old new h = h

switches-SwitchesMatch :
    (p : SdkConnectionParameters) (old new : ApiConnection)
    → SwitchesStored (request p) old new
    → SwitchesMatch p new
unfolding request
switches-SwitchesMatch p old new h = record {
  include_visual_experiments =
      switch-Switched p.include_visual_experiments old.include_visual_experiments
        new.include_visual_experiments h.include_visual_experiments;
  include_draft_experiments =
      switch-Switched p.include_draft_experiments old.include_draft_experiments
        new.include_draft_experiments h.include_draft_experiments;
  include_draft_experiment_refs =
      switch-Switched p.include_draft_experiment_refs old.include_draft_experiment_refs
        new.include_draft_experiment_refs h.include_draft_experiment_refs;
  include_experiment_names =
      switch-Switched p.include_experiment_names old.include_experiment_names
        new.include_experiment_names h.include_experiment_names;
  include_redirect_experiments =
      switch-Switched p.include_redirect_experiments old.include_redirect_experiments
        new.include_redirect_experiments h.include_redirect_experiments;
  include_rule_ids =
      switch-Switched p.include_rule_ids old.include_rule_ids new.include_rule_ids
        h.include_rule_ids;
  include_project_id_in_metadata =
      switch-Switched p.include_project_id_in_metadata old.include_project_id_in_metadata
        new.include_project_id_in_metadata h.include_project_id_in_metadata;
  include_custom_fields_in_metadata =
      switch-Switched p.include_custom_fields_in_metadata old.include_custom_fields_in_metadata
        new.include_custom_fields_in_metadata h.include_custom_fields_in_metadata;
  include_tags_in_metadata =
      switch-Switched p.include_tags_in_metadata old.include_tags_in_metadata
        new.include_tags_in_metadata h.include_tags_in_metadata;
  include_experiment_schedule_in_metadata =
      switch-Switched p.include_experiment_schedule_in_metadata
        old.include_experiment_schedule_in_metadata new.include_experiment_schedule_in_metadata
        h.include_experiment_schedule_in_metadata;
  hash_secure_attributes =
      switch-Switched p.hash_secure_attributes old.hash_secure_attributes new.hash_secure_attributes
        h.hash_secure_attributes;
  remote_eval_enabled =
      switch-Switched p.remote_eval_enabled old.remote_eval_enabled new.remote_eval_enabled
        h.remote_eval_enabled;
  saved_group_references_enabled =
      switch-Switched p.saved_group_references_enabled old.saved_group_references_enabled
        new.saved_group_references_enabled h.saved_group_references_enabled;
  include_referenced_prerequisites =
      switch-Switched p.include_referenced_prerequisites old.include_referenced_prerequisites
        new.include_referenced_prerequisites h.include_referenced_prerequisites;
}

stored-ConnectionMatches :
    (p : SdkConnectionParameters) (old new : ApiConnection)
    → IsStoredConnection (request p) old new
    → CanStore p old
    → ConnectionMatches p new
unfolding request
stored-ConnectionMatches p old new h can = record {
  name = text_agrees p.name old.name new.name can.name h.name;
  environment =
      text_agrees p.environment old.environment new.environment can.environment h.environment;
  language = h.language can.language;
  projects = set_agrees p.projects old.projects new.projects can.projects h.projects;
  allowed_custom_fields_in_metadata =
      set_agrees p.allowed_custom_fields_in_metadata old.allowed_custom_fields_in_metadata
        new.allowed_custom_fields_in_metadata can.allowed_custom_fields_in_metadata
        h.allowed_custom_fields_in_metadata;
  sdk_version = field-Agrees p.sdk_version old.sdk_version new.sdk_version h.sdk_version;
  encrypt_payload =
      field-Agrees p.encrypt_payload old.encrypt_payload new.encrypt_payload h.encrypt_payload;
  proxy_enabled = field-Agrees p.proxy_enabled old.proxy_enabled new.proxy_enabled h.proxy_enabled;
  proxy_host = field-Agrees p.proxy_host old.proxy_host new.proxy_host h.proxy_host;
  switches = switches-SwitchesMatch p old new h.switches;
}

module _ {W : Type 0} (client : SdkConnectionClient W) where
  -- An update that is answered without an error has been stored over what a read returned before it,
  -- and the next read returns the answer.
  abbrev pub StoresConnections : Type 0
  StoresConnections =
      (id : String) (req : SdkConnectionRequest) (w w' : W) (old sc : ApiConnection)
      → (client.get_sdk_connection id w).0 ≡ ok old
      → client.update_sdk_connection id req w ≡ (ok sc, w')
      → ((client.get_sdk_connection id w').0 ≡ ok sc) × IsStoredConnection req old sc

  updated_ok :
      (cr after : SdkConnection) (r : Result ApiConnection × W) (d : ConnectionDetails) (w' : W)
      → updated client cr r ≡ (ok d, after, w')
      → (sc : ApiConnection) × (r ≡ (ok sc, w'))
        × (connection_details sc ≡ d)
        × (after.external_name ≡ cr.external_name)
        × (after.for_provider ≡ cr.for_provider)
  updated_ok cr after (ok sc, w) d w' h = (
    sc,
    ap (λ v. (ok sc, v)) (ap (λ t. t.2) h),
    ground arith,
    sym (ap (λ t. t.1.external_name) h),
    sym (ap (λ t. t.1.for_provider) h),
  )
  updated_ok cr after (err e, w) d w' h = ground arith

  -- After an update of a connection that has a name and whose spec has a language, Observe reports that
  -- the connection exists and is up to date, and publishes the details that the update published, over
  -- a service that stores updates, where an empty text or list of the spec has nothing to clear.
  pub observe-update_connection :
      (cr after : SdkConnection) (w w' : W) (old : ApiConnection) (d : ConnectionDetails)
      → StoresConnections
      → cr.external_name ≢ ""
      → (client.get_sdk_connection cr.external_name w).0 ≡ ok old
      → CanStore cr.for_provider old
      → update client cr w ≡ (ok d, after, w')
      → (o : ExternalObservation) × ((observe client after w').0 ≡ ok o)
        × (o.resource_exists ≡ true)
        × (o.resource_up_to_date ≡ true)
        × (o.connection_details ≡ d)
  unfolding update observe
  observe-update_connection cr after w w' old d stores named had can h =
      let name = cr.external_name in
      let (sc, sent, details, same, spec) =
        updated_ok cr after (client.update_sdk_connection name (request cr.for_provider) w) d w'
          h in
      let (read, stored) = stores name (request cr.for_provider) w w' old sc had sent in
      let there : (client.get_sdk_connection after.external_name w').0 ≡ ok sc =
        ap (λ id. (client.get_sdk_connection id w').0) same ∙ read in
      let (o, found, exists, published, fresh) =
        found_details client after (client.get_sdk_connection after.external_name w') sc there in
      let nonempty : (after.external_name == "") ≡ false =
        ground (arith, eq_iff after.external_name "", named) in
      let matches : is_up_to_date cr.for_provider sc ≡ true =
        (is_up_to_date-ConnectionMatches_iff cr.for_provider sc).1
          (stored-ConnectionMatches cr.for_provider old sc stored can) in
      (
        o,
        rw nonempty found,
        exists,
        fresh ∙ ap (λ p. is_up_to_date p sc) spec ∙ matches,
        published ∙ details,
      )
