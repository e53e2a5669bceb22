-- ===== src/Environment/Convert.antt =====
-- internal/controller/environment/convert.go. Its `lateInitPtr` and `sameSet` are, word for word, the
-- ones of the Feature controller.
use provider_growthbook.Base.{
  String, Bool, true, false, ◌||◌, Option, none, some, List, if◌then◌else◌,
}
use provider_growthbook.Apis.Environment.{
  EnvironmentParameters, EnvironmentInitParameters, EnvironmentObservation,
}
use provider_growthbook.Growthbook.Environment.{Environment as ApiEnvironment, EnvironmentRequest}
use provider_growthbook.Feature.SameSet.{same_set}
use provider_growthbook.Feature.Convert.{
  fill, late_init_ptr, late_init_text, text_differs, flag_differs,
}

unfoldable pub merge_init_provider :
    EnvironmentParameters → EnvironmentInitParameters → EnvironmentParameters
merge_init_provider p ip = record p {
  description = fill p.description ip.description;
  toggle_on_list = fill p.toggle_on_list ip.toggle_on_list;
  default_state = fill p.default_state ip.default_state;
  projects = fill p.projects ip.projects;
  parent = fill p.parent ip.parent;
}

unfoldable pub update_request : EnvironmentParameters → EnvironmentRequest
update_request p = record {
  id = "";
  description = p.description;
  toggle_on_list = p.toggle_on_list;
  default_state = p.default_state;
  projects = p.projects;
  parent = none;
}

unfoldable pub create_request :
    String → EnvironmentParameters → EnvironmentInitParameters → EnvironmentRequest
create_request id p ip =
    let merged = merge_init_provider p ip in
    record (update_request merged) { id = id; parent = merged.parent }

unfoldable pub observation : ApiEnvironment → EnvironmentObservation
observation e = record { id = e.id; parent = e.parent }

unfoldable pub late_initialize :
    EnvironmentParameters
    → EnvironmentInitParameters
    → ApiEnvironment
    → EnvironmentParameters × Bool
late_initialize p ip ext =
    let (description, wrote_description) =
      late_init_ptr p.description ip.description ext.description in
    let (toggle_on_list, wrote_toggle) =
      late_init_ptr p.toggle_on_list ip.toggle_on_list ext.toggle_on_list in
    let (default_state, wrote_default) =
      late_init_ptr p.default_state ip.default_state ext.default_state in
    let (parent, wrote_parent) = late_init_text p.parent ip.parent ext.parent in
    (
      record p {
        description = description;
        toggle_on_list = toggle_on_list;
        default_state = default_state;
        parent = parent;
      },
      wrote_parent || (wrote_default || (wrote_toggle || wrote_description)),
    )

-- The last case of the switch of `isUpToDate`, and what follows the switch.
abbrev pub projects_up_to_date : Option (List String) → Option (List String) → Bool
projects_up_to_date none ext = true
projects_up_to_date (some p) ext = same_set (some p) ext

unfoldable pub is_up_to_date : EnvironmentParameters → ApiEnvironment → Bool
is_up_to_date p ext =
    if text_differs p.description ext.description
    then false
    else if flag_differs p.toggle_on_list ext.toggle_on_list
    then false
    else if flag_differs p.default_state ext.default_state
    then false
    else projects_up_to_date p.projects ext.projects
