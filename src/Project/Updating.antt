-- ===== src/Project/Updating.antt =====
-- Update of internal/controller/project/project.go and the Observe after it, over any client.
use provider_growthbook.Base.{
  String, true, false, ◌≡◌, ◌≢◌, refl, sym, ◌∙◌, ap, subst, arith, ◌==◌, string_eq,
}
use text.Mathlib.TextEquality.{eq_iff}
use provider_growthbook.Base.Float.{FloatOps}
use provider_growthbook.Apis.Project.{Project}
use provider_growthbook.Controller.Managed.{ExternalObservation, ConnectionDetails}
use provider_growthbook.Growthbook.Errors.{Result, ok, err}
use provider_growthbook.Growthbook.Project.{Project as ApiProject, ProjectRequest}
use provider_growthbook.Project.Convert.{request, is_up_to_date}
use provider_growthbook.Project.Converge.{IsPut, SettingsAreSane, is_up_to_date-request}
use provider_growthbook.Project.Drift.{late_initialize-public_id}
use provider_growthbook.Project.External.{
  ProjectClient, observed, observe_result, observe, answered, updated, update,
}

module _ {Float W : Type 0} ⦃N : FloatOps Float⦄ (client : ProjectClient Float W) where
  -- An update that is answered without an error has been stored over what a read returned before it,
  -- and the next read returns the result.
  abbrev pub StoresProjects : Type 0
  StoresProjects =
      (id : String) (req : ProjectRequest Float) (w w' : W) (old p : ApiProject Float)
      → (client.get_project id w).0 ≡ ok old
      → client.update_project id req w ≡ (ok p, w')
      → (new : ApiProject Float) × ((client.get_project id w').0 ≡ ok new) × IsPut req old new

  answered_ok :
      (cr after : Project) (r : Result (ApiProject Float) × W) (d : ConnectionDetails) (w' : W)
      → answered client cr r ≡ (ok d, after, w')
      → (p : ApiProject Float) × (r ≡ (ok p, w'))
        × (after.for_provider ≡ cr.for_provider)
        × (after.external_name ≡ cr.external_name)
  answered_ok cr after (ok p, w) d w' h = (
    p,
    ap (λ s. (ok p, s)) (ap (λ t. t.2) h),
    sym (ap (λ t. t.1.for_provider) h),
    sym (ap (λ t. t.1.external_name) h),
  )
  answered_ok cr after (err e, w) d w' h = ground arith

  updated_ok :
      (cr after : Project) (m : Result (ProjectRequest Float)) (w w' : W) (d : ConnectionDetails)
      → updated client cr m w ≡ (ok d, after, w')
      → (req : ProjectRequest Float) × (m ≡ ok req)
        × ((p : ApiProject Float) × (client.update_project cr.external_name req w ≡ (ok p, w'))
            × (after.for_provider ≡ cr.for_provider)
            × (after.external_name ≡ cr.external_name))
  updated_ok cr after (err e) w w' d h = ground arith
  updated_ok cr after (ok req) w w' d h =
      (req, refl, answered_ok cr after (client.update_project cr.external_name req w) d w' h)

  observe_stored :
      (after : Project) (r : Result (ApiProject Float) × W) (new : ApiProject Float)
      → r.0 ≡ ok new
      → is_up_to_date after.for_provider new ≡ true
      → (o : ExternalObservation) × ((observe_result client after r).0 ≡ ok o)
        × (o.resource_exists ≡ true)
        × (o.resource_up_to_date ≡ true)
  observe_stored after (ok p, w) new e fine =
      let (_, _, _, same) = late_initialize-public_id after.for_provider after.init_provider p in
      (
        (observed after p).0,
        refl,
        refl,
        same ∙ subst (λ g. is_up_to_date after.for_provider g ≡ true) (ground arith) fine,
      )
  observe_stored after (err d, w) new e fine = ground arith

  -- After an update of a Project that has an id, Observe reports that it exists and is up to date, over
  -- a service that stores updates, where an empty name is the stored one and no decimal of the settings
  -- denotes NaN.
  pub observe-update_project :
      (cr after : Project) (w w' : W) (old : ApiProject Float) (d : ConnectionDetails)
      → StoresProjects
      → cr.external_name ≢ ""
      → (client.get_project cr.external_name w).0 ≡ ok old
      → (cr.for_provider.name ≡ "" → old.name ≡ "")
      → SettingsAreSane N cr.for_provider.settings
      → update client cr w ≡ (ok d, after, w')
      → (o : ExternalObservation) × ((observe client after w').0 ≡ ok o)
        × (o.resource_exists ≡ true)
        × (o.resource_up_to_date ≡ true)
  unfolding update observe
  observe-update_project cr after w w' old d stores has_id had named sane h =
      let id = cr.external_name in
      let (req, built, (p, sent, same_spec, same_name)) =
        updated_ok cr after (request cr.for_provider) w w' d h in
      let (new, read, put) = stores id req w w' old p had sent in
      let nonempty : (after.external_name == "") ≡ false =
        ground (arith, eq_iff after.external_name "", has_id) in
      let (o, found, exists, fresh) =
        observe_stored after (client.get_project after.external_name w') new
          (ap (λ n. (client.get_project n w').0) same_name ∙ read)
          (subst (λ q. is_up_to_date q new ≡ true) (sym same_spec)
            (is_up_to_date-request cr.for_provider req old new built put named sane)) in
      (o, rw nonempty found, exists, fresh)
