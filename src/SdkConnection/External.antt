-- ===== src/SdkConnection/External.antt =====
-- internal/controller/sdkconnection/sdkconnection.go: the client interface and the external client.
use provider_growthbook.Base.{String, true, false, [], ◌∷◌, ◌==◌, string_eq, if◌then◌else◌}
use provider_growthbook.Apis.SdkConnection.{SdkConnection}
use provider_growthbook.Controller.Managed.{ExternalObservation, absent, ConnectionDetails}
use provider_growthbook.Growthbook.Text.{utf8}
use provider_growthbook.Growthbook.Errors.{Result, ok, err, wrapped, is_not_found}
use provider_growthbook.Growthbook.SdkConnection.{
  SdkConnection as ApiConnection, SdkConnectionRequest,
}
use provider_growthbook.SdkConnection.Convert.{create_request, request, observation, is_up_to_date}

pub record SdkConnectionClient (W : Type 0) : Type 0 where
  pub get_sdk_connection : String → W → Result ApiConnection × W
  pub create_sdk_connection : SdkConnectionRequest → W → Result ApiConnection × W
  pub update_sdk_connection : String → SdkConnectionRequest → W → Result ApiConnection × W
  pub delete_sdk_connection : String → W → Result (Unit {0}) × W

-- `if v != "" { cd[key] = []byte(v) }`, the other entries having other keys.
abbrev pub detail : String → String → ConnectionDetails → ConnectionDetails
detail key v cd = if v == "" then cd else (key, utf8 v) ∷ cd

unfoldable pub connection_details : ApiConnection → ConnectionDetails
connection_details sc =
    detail "key" sc.key
      (detail "proxySigningKey" sc.proxy_signing_key (detail "proxyHost" sc.proxy_host []))

abbrev pub observed : SdkConnection → ApiConnection → ExternalObservation × SdkConnection
observed cr sc = (
  record {
    resource_exists = true;
    resource_up_to_date = is_up_to_date cr.for_provider sc;
    resource_late_initialized = false;
    connection_details = connection_details sc;
  },
  record cr { at_provider = observation sc; available = true },
)

module _ {W : Type 0} (client : SdkConnectionClient W) where
  abbrev pub observe_result :
      SdkConnection → Result ApiConnection × W → Result ExternalObservation × SdkConnection × W
  observe_result cr (ok sc, w) = (ok (observed cr sc).0, (observed cr sc).1, w)
  observe_result cr (err e, w) =
      if is_not_found e
      then (ok absent, cr, w)
      else (err (wrapped "cannot get sdk connection" e), cr, w)

  unfoldable pub observe : SdkConnection → W → Result ExternalObservation × SdkConnection × W
  observe cr w =
      if cr.external_name == ""
      then (ok absent, cr, w)
      else observe_result cr (client.get_sdk_connection cr.external_name w)

  abbrev pub created :
      SdkConnection → Result ApiConnection × W → Result ConnectionDetails × SdkConnection × W
  created cr (ok sc, w) = (
    ok (connection_details sc),
    record cr { external_name = sc.id; at_provider = observation sc },
    w,
  )
  created cr (err e, w) = (err (wrapped "cannot create sdk connection" e), cr, w)

  unfoldable pub create : SdkConnection → W → Result ConnectionDetails × SdkConnection × W
  create cr w =
      created cr (client.create_sdk_connection (create_request cr.for_provider cr.init_provider) w)

  abbrev pub updated :
      SdkConnection → Result ApiConnection × W → Result ConnectionDetails × SdkConnection × W
  updated cr (ok sc, w) =
      (ok (connection_details sc), record cr { at_provider = observation sc }, w)
  updated cr (err e, w) = (err (wrapped "cannot update sdk connection" e), cr, w)

  unfoldable pub update : SdkConnection → W → Result ConnectionDetails × SdkConnection × W
  update cr w =
      updated cr (client.update_sdk_connection cr.external_name (request cr.for_provider) w)

  abbrev pub after_delete : Result (Unit {0}) × W → Result (Unit {0}) × W
  after_delete (ok _, w) = (ok tt, w)
  after_delete (err e, w) =
      if is_not_found e then (ok tt, w) else (err (wrapped "cannot delete sdk connection" e), w)

  unfoldable pub delete : SdkConnection → W → Result (Unit {0}) × W
  delete cr w =
      if cr.external_name == ""
      then (ok tt, w)
      else after_delete (client.delete_sdk_connection cr.external_name w)
