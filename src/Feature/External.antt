-- ===== src/Feature/External.antt =====
-- internal/controller/feature/feature.go: the client interface and the external client. A method
-- takes the resource and the world, and returns its result, the resource as it leaves it and the
-- world.
use provider_growthbook.Base.{String, Bool, true, not, Option, none, some, [], if◌then◌else◌}
use provider_growthbook.Base.Float.{FloatOps}
use provider_growthbook.Apis.Feature.{Feature}
use provider_growthbook.Controller.Managed.{ExternalObservation, absent, ConnectionDetails}
use provider_growthbook.Controller.Connect.{Kube, connect}
use provider_growthbook.Growthbook.Text.{Bytes}
use provider_growthbook.Growthbook.Credentials.{Client, Credentials, new_from_secret}
use provider_growthbook.Growthbook.Http.{Platform}
use provider_growthbook.Growthbook.Calls.Feature.{
  FeatureEnvelope, get_feature, create_feature, update_feature, delete_feature,
}
use provider_growthbook.Growthbook.Errors.{
  Result, ok, err, wrapped, is_not_found, is_archive_required,
}
use provider_growthbook.Growthbook.Feature.{Feature as ApiFeature, FeatureRequest}
use provider_growthbook.Feature.Convert.{
  create_request, update_request, observation, late_initialize, is_up_to_date,
}

pub record FeatureClient (Float W : Type 0) : Type 0 where
  pub get_feature : String → W → Result (ApiFeature Float) × W
  pub create_feature : FeatureRequest Float → W → Result (ApiFeature Float) × W
  pub update_feature : String → FeatureRequest Float → W → Result (ApiFeature Float) × W
  pub delete_feature : String → W → Result (Unit {0}) × W

-- `newClient`: the client of the REST API behind the interface.
abbrev pub api_client :
    {Float W : Type 0}
    → Platform Float W
    → (Bytes → Option (FeatureEnvelope Float))
    → Client
    → FeatureClient Float W
api_client platform unmarshal c = record {
  get_feature = get_feature platform c unmarshal;
  create_feature = create_feature platform c unmarshal;
  update_feature = update_feature platform c unmarshal;
  delete_feature = delete_feature platform c;
}

-- The request of the archiving step of Delete: `FeatureRequest{Archived: &archived}`.
abbrev pub archive_request : {Float : Type 0} → FeatureRequest Float
archive_request = record {
  id = "";
  value_type = "";
  default_value = "";
  description = none;
  project = none;
  tags = none;
  archived = some true;
  owner = none;
  environments = none;
  rules = none;
}

module _ {Float : Type 0} ⦃N : FloatOps Float⦄ where
  -- The observation of a feature that was found, and the resource with its spec late-initialized.
  abbrev pub observed : Feature → ApiFeature Float → ExternalObservation × Feature
  observed cr f =
      let (spec, late_init) = late_initialize cr.for_provider cr.init_provider f in
      (
        record {
          resource_exists = true;
          resource_up_to_date = is_up_to_date spec f;
          resource_late_initialized = late_init;
          connection_details = [];
        },
        record cr { for_provider = spec; at_provider = observation f; available = true },
      )

module _ {Float W : Type 0} ⦃N : FloatOps Float⦄ (client : FeatureClient Float W) where
  abbrev pub observe_result :
      Feature → Result (ApiFeature Float) × W → Result ExternalObservation × Feature × W
  observe_result cr (ok f, w) = (ok (observed cr f).0, (observed cr f).1, w)
  observe_result cr (err e, w) =
      if is_not_found e then (ok absent, cr, w) else (err (wrapped "cannot get feature" e), cr, w)

  unfoldable pub observe : Feature → W → Result ExternalObservation × Feature × W
  observe cr w = observe_result cr (client.get_feature cr.external_name w)

  -- The end of Create and of Update: the status is written from the answer.
  abbrev pub answered :
      String → Feature → Result (ApiFeature Float) × W → Result ConnectionDetails × Feature × W
  answered message cr (ok f, w) = (ok [], record cr { at_provider = observation f }, w)
  answered message cr (err e, w) = (err (wrapped message e), cr, w)

  abbrev pub created :
      Feature → Result (FeatureRequest Float) → W → Result ConnectionDetails × Feature × W
  created cr (err e) w = (err (wrapped "invalid feature rules" e), cr, w)
  created cr (ok req) w = answered "cannot create feature" cr (client.create_feature req w)

  unfoldable pub create : Feature → W → Result ConnectionDetails × Feature × W
  create cr w = created cr (create_request cr.external_name cr.for_provider cr.init_provider) w

  abbrev pub updated :
      Feature → Result (FeatureRequest Float) → W → Result ConnectionDetails × Feature × W
  updated cr (err e) w = (err (wrapped "invalid feature rules" e), cr, w)
  updated cr (ok req) w =
      answered "cannot update feature" cr (client.update_feature cr.external_name req w)

  unfoldable pub update : Feature → W → Result ConnectionDetails × Feature × W
  update cr w = updated cr (update_request cr.for_provider) w

module _ {Float W : Type 0} (client : FeatureClient Float W) where
  -- The second attempt to delete.
  abbrev pub deleted_at_last : Result (Unit {0}) × W → Result (Unit {0}) × W
  deleted_at_last (ok _, w) = (ok tt, w)
  deleted_at_last (err e, w) =
      if is_not_found e then (ok tt, w) else (err (wrapped "cannot delete feature" e), w)

  abbrev pub after_archiving : String → Result (ApiFeature Float) × W → Result (Unit {0}) × W
  after_archiving id (err e, w) = (err (wrapped "cannot archive feature before delete" e), w)
  after_archiving id (ok _, w) = deleted_at_last (client.delete_feature id w)

  abbrev pub after_delete : String → Result (Unit {0}) × W → Result (Unit {0}) × W
  after_delete id (ok _, w) = (ok tt, w)
  after_delete id (err e, w) =
      if is_not_found e
      then (ok tt, w)
      else if not (is_archive_required e)
      then (err (wrapped "cannot delete feature" e), w)
      else after_archiving id (client.update_feature id archive_request w)

  unfoldable pub delete : Feature → W → Result (Unit {0}) × W
  delete cr w = after_delete cr.external_name (client.delete_feature cr.external_name w)

module _ {Float W Selectors : Type 0} where
  -- `Connect` with `newClient`.
  unfoldable pub connect_feature :
      Kube Selectors W
      → Platform Float W
      → (Bytes → Option Credentials)
      → (Bytes → Bool)
      → (Bytes → Option (FeatureEnvelope Float))
      → Feature
      → W
      → Result (FeatureClient Float W) × W
  connect_feature kube platform unmarshal url_parses envelope cr =
      connect kube (λ input. built_client (new_from_secret unmarshal url_parses input)) cr.namespace
        cr.provider_config_reference
    where
      built_client : Result Client → Result (FeatureClient Float W)
      built_client (ok c) = ok (api_client platform envelope c)
      built_client (err e) = err e
