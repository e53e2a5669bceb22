-- ===== src/Project/External.antt =====
-- internal/controller/project/project.go: the client interface and the external client.
use provider_growthbook.Base.{String, true, [], ◌==◌, string_eq, if◌then◌else◌}
use provider_growthbook.Base.Float.{FloatOps}
use provider_growthbook.Apis.Project.{Project}
use provider_growthbook.Controller.Managed.{ExternalObservation, absent, ConnectionDetails}
use provider_growthbook.Growthbook.Errors.{Result, ok, err, wrapped, is_not_found}
use provider_growthbook.Growthbook.Project.{Project as ApiProject, ProjectRequest}
use provider_growthbook.Project.Convert.{
  create_request, request, observation, late_initialize, is_up_to_date,
}

pub record ProjectClient (Float W : Type 0) : Type 0 where
  pub get_project : String → W → Result (ApiProject Float) × W
  pub create_project : ProjectRequest Float → W → Result (ApiProject Float) × W
  pub update_project : String → ProjectRequest Float → W → Result (ApiProject Float) × W
  pub delete_project : String → W → Result (Unit {0}) × W

module _ {Float : Type 0} ⦃N : FloatOps Float⦄ where
  abbrev pub observed : Project → ApiProject Float → ExternalObservation × Project
  observed cr p =
      let (spec, late_init) = late_initialize cr.for_provider cr.init_provider p in
      (
        record {
          resource_exists = true;
          resource_up_to_date = is_up_to_date spec p;
          resource_late_initialized = late_init;
          connection_details = [];
        },
        record cr { for_provider = spec; at_provider = observation p; available = true },
      )

module _ {Float W : Type 0} ⦃N : FloatOps Float⦄ (client : ProjectClient Float W) where
  abbrev pub observe_result :
      Project → Result (ApiProject Float) × W → Result ExternalObservation × Project × W
  observe_result cr (ok p, w) = (ok (observed cr p).0, (observed cr p).1, w)
  observe_result cr (err e, w) =
      if is_not_found e then (ok absent, cr, w) else (err (wrapped "cannot get project" e), cr, w)

  unfoldable pub observe : Project → W → Result ExternalObservation × Project × W
  observe cr w =
      if cr.external_name == ""
      then (ok absent, cr, w)
      else observe_result cr (client.get_project cr.external_name w)

  abbrev pub recorded_id :
      Project → Result (ApiProject Float) × W → Result ConnectionDetails × Project × W
  recorded_id cr (ok p, w) =
      (ok [], record cr { external_name = p.id; at_provider = observation p }, w)
  recorded_id cr (err e, w) = (err (wrapped "cannot create project" e), cr, w)

  abbrev pub created :
      Project → Result (ProjectRequest Float) → W → Result ConnectionDetails × Project × W
  created cr (err e) w = (err (wrapped "invalid project settings" e), cr, w)
  created cr (ok req) w = recorded_id cr (client.create_project req w)

  unfoldable pub create : Project → W → Result ConnectionDetails × Project × W
  create cr w = created cr (create_request cr.for_provider cr.init_provider) w

  abbrev pub answered :
      Project → Result (ApiProject Float) × W → Result ConnectionDetails × Project × W
  answered cr (ok p, w) = (ok [], record cr { at_provider = observation p }, w)
  answered cr (err e, w) = (err (wrapped "cannot update project" e), cr, w)

  abbrev pub updated :
      Project → Result (ProjectRequest Float) → W → Result ConnectionDetails × Project × W
  updated cr (err e) w = (err (wrapped "invalid project settings" e), cr, w)
  updated cr (ok req) w = answered cr (client.update_project cr.external_name req w)

  unfoldable pub update : Project → W → Result ConnectionDetails × Project × W
  update cr w = updated cr (request cr.for_provider) w

  abbrev pub after_delete : Result (Unit {0}) × W → Result (Unit {0}) × W
  after_delete (ok _, w) = (ok tt, w)
  after_delete (err e, w) =
      if is_not_found e then (ok tt, w) else (err (wrapped "cannot delete project" e), w)

  unfoldable pub delete : Project → W → Result (Unit {0}) × W
  delete cr w =
      if cr.external_name == ""
      then (ok tt, w)
      else after_delete (client.delete_project cr.external_name w)
