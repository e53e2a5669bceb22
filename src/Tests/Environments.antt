-- ===== src/Tests/Environments.antt =====
-- Update of internal/controller/environment/environment.go over a service that holds one environment.
use provider_growthbook.Base.{true, false, [], ◌≡◌, refl, sym, ap, subst, arith}
use provider_growthbook.Apis.Environment.{Environment}
use provider_growthbook.Controller.Managed.{ExternalObservation}
use provider_growthbook.Growthbook.Errors.{ok, err, plain}
use provider_growthbook.Growthbook.Environment.{Environment as ApiEnvironment, EnvironmentRequest}
use provider_growthbook.Environment.Convert.{observation, update_request}
use provider_growthbook.Environment.Converge.{IsStored}
use provider_growthbook.Environment.External.{EnvironmentClient, observe, update}
use provider_growthbook.Environment.Lifecycle.{StoresEnvironments, observe-update_environment}
use provider_growthbook.Tests.Lifecycle.{
  patched, patched_set, FieldPatched-patched, SetPatched-patched,
}
use provider_growthbook.Tests.Resources.{staging, staging_init, staging_stored}

abbrev apply_environment : EnvironmentRequest → ApiEnvironment → ApiEnvironment
apply_environment req old = record old {
  description = patched req.description old.description;
  toggle_on_list = patched req.toggle_on_list old.toggle_on_list;
  default_state = patched req.default_state old.default_state;
  projects = patched_set req.projects old.projects;
}

apply_environment-IsStored :
    (req : EnvironmentRequest) (old : ApiEnvironment) → IsStored req old (apply_environment req old)
apply_environment-IsStored req old = record {
  description = FieldPatched-patched req.description old.description;
  toggle_on_list = FieldPatched-patched req.toggle_on_list old.toggle_on_list;
  default_state = FieldPatched-patched req.default_state old.default_state;
  projects = SetPatched-patched req.projects old.projects;
}

abbrev held_environment : EnvironmentClient ApiEnvironment
held_environment = record {
  get_environment = λ id env. (ok env, env);
  create_environment = λ req env. (err (plain "unsupported"), env);
  update_environment = λ id req env. (ok (apply_environment req env), apply_environment req env);
  delete_environment = λ id env. (err (plain "unsupported"), env);
}

held_environment-StoresEnvironments : StoresEnvironments held_environment
held_environment-StoresEnvironments id req w w' old env had sent =
    let start : w ≡ old = ground arith in
    (
      apply_environment req w,
      ap (λ v. ok v) (sym (ap (λ r. r.1) sent)),
      subst (λ o. IsStored req o (apply_environment req w)) start
          (apply_environment-IsStored req w),
    )

abbrev staging_environment : Environment
staging_environment = record {
  namespace = "default";
  provider_config_reference = record { kind = "ProviderConfig"; name = "default" };
  external_name = "staging";
  for_provider = staging;
  init_provider = staging_init;
  at_provider = record { id = ""; parent = "" };
  available = false;
}

abbrev staging_updated : ApiEnvironment
staging_updated = apply_environment (update_request staging) staging_stored

abbrev staging_after : Environment
staging_after = record staging_environment { at_provider = observation staging_updated }

staging-update :
    update held_environment staging_environment staging_stored
    ≡ (ok [], staging_after, staging_updated)
unfolding update
staging-update = refl

observe-update_environment_example :
    (o : ExternalObservation) × ((observe held_environment staging_after staging_updated).0 ≡ ok o)
    × (o.resource_exists ≡ true)
    × (o.resource_up_to_date ≡ true)
observe-update_environment_example =
    observe-update_environment held_environment staging_environment staging_after staging_stored
      staging_updated staging_stored [] held_environment-StoresEnvironments refl (λ e. ground arith)
      staging-update
