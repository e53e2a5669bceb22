-- ===== src/Environment/External.antt =====
-- internal/controller/environment/environment.go: the client interface and the external client.
use provider_growthbook.Base.{String, true, [], if◌then◌else◌}
use provider_growthbook.Apis.Environment.{Environment}
use provider_growthbook.Controller.Managed.{ExternalObservation, absent, ConnectionDetails}
use provider_growthbook.Growthbook.Errors.{Result, ok, err, wrapped, is_not_found}
use provider_growthbook.Growthbook.Environment.{Environment as ApiEnvironment, EnvironmentRequest}
use provider_growthbook.Environment.Convert.{
  create_request, update_request, observation, late_initialize, is_up_to_date,
}

pub record EnvironmentClient (W : Type 0) : Type 0 where
  pub get_environment : String → W → Result ApiEnvironment × W
  pub create_environment : EnvironmentRequest → W → Result ApiEnvironment × W
  pub update_environment : String → EnvironmentRequest → W → Result ApiEnvironment × W
  pub delete_environment : String → W → Result (Unit {0}) × W

abbrev pub observed : Environment → ApiEnvironment → ExternalObservation × Environment
observed cr env =
    let (spec, late_init) = late_initialize cr.for_provider cr.init_provider env in
    (
      record {
        resource_exists = true;
        resource_up_to_date = is_up_to_date spec env;
        resource_late_initialized = late_init;
        connection_details = [];
      },
      record cr { for_provider = spec; at_provider = observation env; available = true },
    )

module _ {W : Type 0} (client : EnvironmentClient W) where
  abbrev pub observe_result :
      Environment → Result ApiEnvironment × W → Result ExternalObservation × Environment × W
  observe_result cr (ok env, w) = (ok (observed cr env).0, (observed cr env).1, w)
  observe_result cr (err e, w) =
      if is_not_found e
      then (ok absent, cr, w)
      else (err (wrapped "cannot get environment" e), cr, w)

  unfoldable pub observe : Environment → W → Result ExternalObservation × Environment × W
  observe cr w = observe_result cr (client.get_environment cr.external_name w)

  abbrev pub answered :
      String → Environment → Result ApiEnvironment × W → Result ConnectionDetails × Environment × W
  answered message cr (ok env, w) = (ok [], record cr { at_provider = observation env }, w)
  answered message cr (err e, w) = (err (wrapped message e), cr, w)

  unfoldable pub create : Environment → W → Result ConnectionDetails × Environment × W
  create cr w = answered "cannot create environment" cr (
      client.create_environment (create_request cr.external_name cr.for_provider cr.init_provider)
        w)

  unfoldable pub update : Environment → W → Result ConnectionDetails × Environment × W
  update cr w =
      answered "cannot update environment" cr
        (client.update_environment cr.external_name (update_request cr.for_provider) w)

  abbrev pub after_delete : Result (Unit {0}) × W → Result (Unit {0}) × W
  after_delete (ok _, w) = (ok tt, w)
  after_delete (err e, w) =
      if is_not_found e then (ok tt, w) else (err (wrapped "cannot delete environment" e), w)

  unfoldable pub delete : Environment → W → Result (Unit {0}) × W
  delete cr w = after_delete (client.delete_environment cr.external_name w)
