-- ===== src/Environment/Drift.antt =====
-- The laws of internal/controller/environment/convert.go: drift, late initialization and requests.
use provider_growthbook.Base.{
  String, Bool, true, false, Option, none, some, List, ◌≡◌, refl, ◌↔◌, arith, string_eq, bool_eq,
}
use provider_growthbook.Apis.Environment.{EnvironmentParameters, EnvironmentInitParameters}
use provider_growthbook.Growthbook.Environment.{Environment as ApiEnvironment}
use provider_growthbook.Feature.SameSet.{same_set-iff_perm}
use provider_growthbook.Feature.Matches.{Agrees, AgreesAsSet}
use provider_growthbook.Feature.Convert.{late_init_ptr, flag_differs}
use provider_growthbook.Feature.UpToDate.{text_differs_iff, flag_differs_iff}
use provider_growthbook.Feature.LateInitialize.{
  text_differs_ptr, late_init_ptr_idem, late_init_text_idem,
}
use provider_growthbook.Environment.Convert.{late_initialize, projects_up_to_date, is_up_to_date}

-- The fields that are managed after creation; the parent is not one of them.
pub record EnvironmentMatches (p : EnvironmentParameters) (ext : ApiEnvironment) : Type 0 where
  pub description : Agrees p.description ext.description
  pub toggle_on_list : Agrees p.toggle_on_list ext.toggle_on_list
  pub default_state : Agrees p.default_state ext.default_state
  pub projects : AgreesAsSet p.projects ext.projects

projects_up_to_date_iff :
    (p ext : Option (List String)) → (projects_up_to_date p ext ≡ true) ↔ AgreesAsSet p ext
projects_up_to_date_iff none ext = ground arith
projects_up_to_date_iff (some p) ext = same_set-iff_perm (some p) ext

-- An Environment is up to date exactly when each of description, toggleOnList and defaultState
-- that the user set has the observed value, and projects, if set, is the observed list up to its
-- order. The parent does not count.
pub is_up_to_date_iff_matches :
    (p : EnvironmentParameters) (ext : ApiEnvironment)
    → (is_up_to_date p ext ≡ true) ↔ EnvironmentMatches p ext
unfolding is_up_to_date
is_up_to_date_iff_matches p ext = ground (
  arith,
  text_differs_iff p.description ext.description,
  flag_differs_iff p.toggle_on_list ext.toggle_on_list,
  flag_differs_iff p.default_state ext.default_state,
  projects_up_to_date_iff p.projects ext.projects,
)

flag_differs_ptr :
    (dst init : Option Bool) (v : Bool)
    → flag_differs (late_init_ptr dst init v).0 v ≡ flag_differs dst v
flag_differs_ptr (some a) init v = refl
flag_differs_ptr none (some i) v = refl
flag_differs_ptr none none v = ground arith

flag_ptr_idem :
    (dst init : Option Bool) (v : Bool)
    → late_init_ptr (late_init_ptr dst init v).0 init v ≡ ((late_init_ptr dst init v).0, false)
flag_ptr_idem (some a) init v = refl
flag_ptr_idem none (some i) v = refl
flag_ptr_idem none none v = refl

-- Filling the spec of an Environment from what was observed neither causes drift nor hides it, and
-- a second late initialization from the same environment changes nothing.
pub late_initialize-stable :
    (p : EnvironmentParameters) (ip : EnvironmentInitParameters) (ext : ApiEnvironment)
    → (is_up_to_date (late_initialize p ip ext).0 ext ≡ is_up_to_date p ext)
      × (late_initialize (late_initialize p ip ext).0 ip ext
          ≡ ((late_initialize p ip ext).0, false))
unfolding is_up_to_date late_initialize
late_initialize-stable p ip ext = (
  rw (
    text_differs_ptr p.description ip.description ext.description,
    flag_differs_ptr p.toggle_on_list ip.toggle_on_list ext.toggle_on_list,
    flag_differs_ptr p.default_state ip.default_state ext.default_state,
  ),
  ground (
    arith,
    late_init_ptr_idem p.description ip.description ext.description,
    flag_ptr_idem p.toggle_on_list ip.toggle_on_list ext.toggle_on_list,
    flag_ptr_idem p.default_state ip.default_state ext.default_state,
    late_init_text_idem p.parent ip.parent ext.parent,
  ),
)
