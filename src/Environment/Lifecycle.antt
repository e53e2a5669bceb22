-- ===== src/Environment/Lifecycle.antt =====
-- Update of internal/controller/environment/environment.go and the Observe after it, over any client.
use provider_growthbook.Base.{String, true, some, [], ◌≡◌, refl, sym, ◌∙◌, ap, subst, arith}
use provider_growthbook.Base.Lists.{elems}
use provider_growthbook.Apis.Environment.{Environment}
use provider_growthbook.Controller.Managed.{ExternalObservation, ConnectionDetails}
use provider_growthbook.Growthbook.Errors.{Result, ok, err}
use provider_growthbook.Growthbook.Environment.{Environment as ApiEnvironment, EnvironmentRequest}
use provider_growthbook.Environment.Convert.{update_request, is_up_to_date}
use provider_growthbook.Environment.Converge.{IsStored, is_up_to_date-environment_update}
use provider_growthbook.Environment.Drift.{late_initialize-stable}
use provider_growthbook.Environment.External.{
  EnvironmentClient, observed, observe_result, observe, answered, update,
}

module _ {W : Type 0} (client : EnvironmentClient W) where
  -- An update that is answered without an error has been stored over what a read returned before it,
  -- and the next read returns the result.
  abbrev pub StoresEnvironments : Type 0
  StoresEnvironments =
      (id : String) (req : EnvironmentRequest) (w w' : W) (old env : ApiEnvironment)
      → (client.get_environment id w).0 ≡ ok old
      → client.update_environment id req w ≡ (ok env, w')
      → (new : ApiEnvironment) × ((client.get_environment id w').0 ≡ ok new) × IsStored req old new

  answered_ok :
      (message : String) (cr after : Environment) (r : Result ApiEnvironment × W)
      (d : ConnectionDetails) (w' : W)
      → answered client message cr r ≡ (ok d, after, w')
      → (env : ApiEnvironment) × (r ≡ (ok env, w'))
        × (after.for_provider ≡ cr.for_provider)
        × (after.external_name ≡ cr.external_name)
  answered_ok message cr after (ok env, w) d w' h = (
    env,
    ap (λ s. (ok env, s)) (ap (λ t. t.2) h),
    sym (ap (λ t. t.1.for_provider) h),
    sym (ap (λ t. t.1.external_name) h),
  )
  answered_ok message cr after (err e, w) d w' h = ground arith

  observe_stored :
      (after : Environment) (r : Result ApiEnvironment × W) (new : ApiEnvironment)
      → r.0 ≡ ok new
      → is_up_to_date after.for_provider new ≡ true
      → (o : ExternalObservation) × ((observe_result client after r).0 ≡ ok o)
        × (o.resource_exists ≡ true)
        × (o.resource_up_to_date ≡ true)
  observe_stored after (ok env, w) new e fine = (
    (observed after env).0,
    refl,
    refl,
    (late_initialize-stable after.for_provider after.init_provider env).0
        ∙ subst (λ g. is_up_to_date after.for_provider g ≡ true) (ground arith) fine,
  )
  observe_stored after (err d, w) new e fine = ground arith

  -- After an update of an Environment that succeeds, Observe reports that it exists and is up to date,
  -- over a service that stores updates, where an empty list of projects has nothing to clear.
  pub observe-update_environment :
      (cr after : Environment) (w w' : W) (old : ApiEnvironment) (d : ConnectionDetails)
      → StoresEnvironments
      → (client.get_environment cr.external_name w).0 ≡ ok old
      → (cr.for_provider.projects ≡ some [] → elems old.projects ≡ [])
      → update client cr w ≡ (ok d, after, w')
      → (o : ExternalObservation) × ((observe client after w').0 ≡ ok o)
        × (o.resource_exists ≡ true)
        × (o.resource_up_to_date ≡ true)
  unfolding update observe
  observe-update_environment cr after w w' old d stores had fits h =
      let name = cr.external_name in
      let (env, sent, same_spec, same_name) =
        answered_ok "cannot update environment" cr after
          (client.update_environment name (update_request cr.for_provider) w) d w' h in
      let (new, read, stored) =
        stores name (update_request cr.for_provider) w w' old env had sent in
      observe_stored after (client.get_environment after.external_name w') new
        (ap (λ id. (client.get_environment id w').0) same_name ∙ read)
        (subst (λ p. is_up_to_date p new ≡ true) (sym same_spec)
          (is_up_to_date-environment_update cr.for_provider old new stored fits))
