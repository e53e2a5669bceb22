-- ===== src/Environment/Converge.antt =====
-- `updateRequest` and `isUpToDate` of internal/controller/environment. The service is GrowthBook's
-- PUT /v1/environments/{id} as it is documented: a field that the body leaves out (a nil pointer, an
-- empty slice) is left as it is, any other is stored.
use provider_growthbook.Base.{true, some, [], ◌≡◌}
use provider_growthbook.Base.Lists.{elems}
use provider_growthbook.Apis.Environment.{EnvironmentParameters}
use provider_growthbook.Growthbook.Environment.{Environment as ApiEnvironment, EnvironmentRequest}
use provider_growthbook.Feature.Service.{FieldPatched, SetPatched}
use provider_growthbook.Feature.Reconcile.{field-Agrees, set_agrees}
use provider_growthbook.Environment.Convert.{update_request, is_up_to_date}
use provider_growthbook.Environment.Drift.{is_up_to_date_iff_matches}

-- The environment `new` is what the service holds after the request has changed `old`.
pub record IsStored (req : EnvironmentRequest) (old new : ApiEnvironment) : Type 0 where
  pub description : FieldPatched req.description old.description new.description
  pub toggle_on_list : FieldPatched req.toggle_on_list old.toggle_on_list new.toggle_on_list
  pub default_state : FieldPatched req.default_state old.default_state new.default_state
  pub projects : SetPatched req.projects old.projects new.projects

-- Once the service has stored what Update sends of an Environment, the next Observe finds it up to
-- date, provided that an empty list of projects had nothing to clear.
pub is_up_to_date-environment_update :
    (p : EnvironmentParameters) (old new : ApiEnvironment)
    → IsStored (update_request p) old new
    → (p.projects ≡ some [] → elems old.projects ≡ [])
    → is_up_to_date p new ≡ true
unfolding update_request
is_up_to_date-environment_update p old new stored fits =
    (is_up_to_date_iff_matches p new).1 (record {
      description = field-Agrees p.description old.description new.description stored.description;
      toggle_on_list =
          field-Agrees p.toggle_on_list old.toggle_on_list new.toggle_on_list stored.toggle_on_list;
      default_state =
          field-Agrees p.default_state old.default_state new.default_state stored.default_state;
      projects = set_agrees p.projects old.projects new.projects fits stored.projects;
    })
