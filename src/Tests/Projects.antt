-- ===== src/Tests/Projects.antt =====
-- Update of internal/controller/project/project.go over a service that holds one project.
use text.Mathlib.TextEquality.{eq_iff}
use provider_growthbook.Base.{
  ℕ, Bool, true, Option, none, some, [], ◌≡◌, refl, sym, ap, subst, arith, string_eq,
}
use provider_growthbook.Apis.Project.{Project}
use provider_growthbook.Controller.Managed.{ExternalObservation}
use provider_growthbook.Growthbook.Errors.{ok, err, plain}
use provider_growthbook.Growthbook.Project.{
  Project as ApiProject, ProjectRequest, ProjectSettings as ApiSettings,
}
use provider_growthbook.Feature.RulesConvert.{deref_bool}
use provider_growthbook.Feature.Service.{FieldPatched}
use provider_growthbook.Project.Convert.{observation, request, parse_decimal}
use provider_growthbook.Project.Converge.{PartStored, SettingsPatched, IsPut}
use provider_growthbook.Project.External.{ProjectClient, observe, update}
use provider_growthbook.Project.Updating.{StoresProjects, observe-update_project}
use provider_growthbook.Tests.Data.{tenths}
use provider_growthbook.Tests.Lifecycle.{
  patched, patched_text, TextPatched-patched, FieldPatched-patched,
}
use provider_growthbook.Tests.Resources.{shop_stored_with, shop_request, unnamed}

abbrev replaced : {A : Type 0} → Option A → Option A → Option A
replaced none old = old
replaced (some a) old = some a

abbrev apply_project : ProjectRequest ℕ → ApiProject ℕ → ApiProject ℕ
apply_project req old = record old {
  name = patched_text req.name old.name;
  description = patched req.description old.description;
  public_id = patched req.public_id old.public_id;
  restrict_access = replaced req.restrict_access old.restrict_access;
  settings = replaced req.settings old.settings;
}

access_stored :
    (o old : Option Bool) → FieldPatched o (deref_bool old) (deref_bool (replaced o old))
access_stored none old = refl
access_stored (some b) old = refl

PartStored-self : {A : Type 0} (o : Option A) → PartStored o o
PartStored-self none = tt
PartStored-self (some a) = refl

settings_stored : (o old : Option (ApiSettings ℕ)) → SettingsPatched o (replaced o old)
settings_stored none old = tt
settings_stored (some s) old = (
  PartStored-self s.stats_engine,
  PartStored-self s.confidence_level,
  PartStored-self s.p_value_threshold,
)

apply_project-IsPut :
    (req : ProjectRequest ℕ) (old : ApiProject ℕ) → IsPut req old (apply_project req old)
apply_project-IsPut req old = record {
  name = TextPatched-patched req.name old.name;
  description = FieldPatched-patched req.description old.description;
  public_id = FieldPatched-patched req.public_id old.public_id;
  restrict_access = access_stored req.restrict_access old.restrict_access;
  settings = settings_stored req.settings old.settings;
}

abbrev held_project : ProjectClient ℕ (ApiProject ℕ)
held_project = record {
  get_project = λ id p. (ok p, p);
  create_project = λ req p. (err (plain "unsupported"), p);
  update_project = λ id req p. (ok (apply_project req p), apply_project req p);
  delete_project = λ id p. (err (plain "unsupported"), p);
}

held_project-StoresProjects : StoresProjects ⦃N = tenths⦄ held_project
held_project-StoresProjects id req w w' old p had sent =
    let start : w ≡ old = ground arith in
    (
      apply_project req w,
      ap (λ v. ok v) (sym (ap (λ r. r.1) sent)),
      subst (λ o. IsPut req o (apply_project req w)) start (apply_project-IsPut req w),
    )

abbrev shop_project : Project
shop_project = record unnamed { external_name = "prj_1" }

abbrev shop_updated : ApiProject ℕ
shop_updated = apply_project shop_request (shop_stored_with none)

abbrev shop_after : Project
shop_after = record shop_project { at_provider = observation shop_updated }

shop-update :
    update ⦃N = tenths⦄ held_project shop_project (shop_stored_with none)
    ≡ (ok [], shop_after, shop_updated)
unfolding update request parse_decimal
shop-update = refl

observe-update_project_example :
    (o : ExternalObservation) × ((observe ⦃N = tenths⦄ held_project shop_after shop_updated).0
      ≡ ok o)
    × (o.resource_exists ≡ true)
    × (o.resource_up_to_date ≡ true)
observe-update_project_example =
    observe-update_project ⦃N = tenths⦄ held_project shop_project shop_after (shop_stored_with none)
      shop_updated (shop_stored_with none) [] held_project-StoresProjects
      (λ e. ground (arith, eq_iff "prj_1" "")) refl (λ e. e) (refl, tt) shop-update
