-- ===== src/Tests/Resources.antt =====
-- internal/controller/environment and internal/controller/project at concrete specs and answers.
use provider_growthbook.Base.{
  ℕ, suc, String, true, false, Option, none, some, [], ◌∷◌, ◌≡◌, ◌≢◌, ◌↔◌, refl, arith, ap, subst,
}
use text.Mathlib.TextEquality.{eq_iff}
use provider_growthbook.Apis.Environment.{EnvironmentParameters, EnvironmentInitParameters}
use provider_growthbook.Apis.Project.{Project, ProjectParameters, ProjectInitParameters}
use provider_growthbook.Controller.Managed.{ExternalObservation}
use provider_growthbook.Growthbook.Errors.{ok}
use provider_growthbook.Growthbook.Environment.{Environment as ApiEnvironment}
use provider_growthbook.Growthbook.Project.{
  Project as ApiProject, ProjectRequest, ProjectSettings as ApiSettings,
}
use provider_growthbook.Environment.Convert as EnvironmentConvert
use provider_growthbook.Environment.Drift.{
  EnvironmentMatches, is_up_to_date_iff_matches, late_initialize-stable,
}
use provider_growthbook.Project.Convert.{
  is_up_to_date, request, request_body, create_request, merge_init_provider, observation,
  parse_decimal,
}
use provider_growthbook.Project.Drift.{ProjectMatches, project_up_to_date_iff}
use provider_growthbook.Project.External.{ProjectClient, observe, create}
use provider_growthbook.Project.Lifecycle.{
  CreationOutcome, create-CreationOutcome, ReadsProjects, observe-create_project,
}
use provider_growthbook.Tests.Data.{tenths}

abbrev pub staging : EnvironmentParameters
staging = record {
  description = none;
  toggle_on_list = some true;
  default_state = none;
  projects = some ("p1" ∷ "p2" ∷ []);
  parent = none;
}

abbrev pub staging_init : EnvironmentInitParameters
staging_init = record {
  description = none;
  toggle_on_list = none;
  default_state = none;
  projects = none;
  parent = some "dev";
}

abbrev pub staging_stored : ApiEnvironment
staging_stored = record {
  id = "staging";
  description = "before production";
  toggle_on_list = true;
  default_state = false;
  projects = some ("p2" ∷ "p1" ∷ []);
  parent = "production";
}

is_up_to_date_iff_matches_example :
    (EnvironmentConvert.is_up_to_date staging staging_stored ≡ true)
    ↔ EnvironmentMatches staging staging_stored
is_up_to_date_iff_matches_example = is_up_to_date_iff_matches staging staging_stored

late_initialize-stable_example :
    (EnvironmentConvert.is_up_to_date
        (EnvironmentConvert.late_initialize staging staging_init staging_stored).0
        staging_stored
      ≡ EnvironmentConvert.is_up_to_date staging staging_stored)
    × (EnvironmentConvert.late_initialize
          (EnvironmentConvert.late_initialize staging staging_init staging_stored).0
          staging_init
          staging_stored
        ≡ ((EnvironmentConvert.late_initialize staging staging_init staging_stored).0, false))
late_initialize-stable_example = late_initialize-stable staging staging_init staging_stored

abbrev shop : ProjectParameters
shop = record {
  name = "Shop";
  description = none;
  public_id = none;
  restrict_access = some false;
  settings = some (record {
    stats_engine = some "bayesian";
    confidence_level = some "0.50";
    p_value_threshold = none;
  });
}

abbrev shop_init : ProjectInitParameters
shop_init = record {
  name = none;
  description = some "the shop";
  public_id = none;
  restrict_access = none;
  settings = none;
}

abbrev shop_settings : ApiSettings ℕ
shop_settings = record {
  stats_engine = some "bayesian";
  confidence_level = some 5;
  p_value_threshold = none;
}

abbrev pub shop_stored_with : Option (ApiSettings ℕ) → ApiProject ℕ
shop_stored_with settings = record {
  id = "prj_1";
  name = "Shop";
  description = "";
  public_id = "shop";
  restrict_access = none;
  settings = settings;
  date_created = "";
  date_updated = "";
}

abbrev shop_stored : ApiProject ℕ
shop_stored = shop_stored_with (some shop_settings)

project_up_to_date_iff_example :
    (is_up_to_date ⦃N = tenths⦄ shop shop_stored ≡ true)
    ↔ ProjectMatches ⦃N = tenths⦄ shop shop_stored
project_up_to_date_iff_example = project_up_to_date_iff ⦃N = tenths⦄ shop shop_stored

abbrev pub shop_request : ProjectRequest ℕ
shop_request = request_body ⦃N = tenths⦄ shop (some shop_settings)

shop-request : request ⦃N = tenths⦄ shop ≡ ok shop_request
unfolding request parse_decimal
shop-request = refl

abbrev pub unnamed : Project
unnamed = record {
  namespace = "default";
  provider_config_reference = record { kind = "ProviderConfig"; name = "default" };
  external_name = "";
  for_provider = shop;
  init_provider = shop_init;
  at_provider = record { id = ""; public_id = ""; date_created = ""; date_updated = "" };
  available = false;
}

-- A service whose world counts the requests.
abbrev assigning : ProjectClient ℕ ℕ
assigning = record {
  get_project = λ id n. (ok shop_stored, suc n);
  create_project = λ req n. (ok shop_stored, suc n);
  update_project = λ id req n. (ok shop_stored, suc n);
  delete_project = λ id n. (ok tt, suc n);
}

create-CreationOutcome_example :
    CreationOutcome ⦃N = tenths⦄ assigning unnamed 0 (create ⦃N = tenths⦄ assigning unnamed 0)
create-CreationOutcome_example = create-CreationOutcome ⦃N = tenths⦄ assigning unnamed 0

abbrev named : Project
named = record unnamed { external_name = "prj_1"; at_provider = observation shop_stored }

unnamed-create : create ⦃N = tenths⦄ assigning unnamed 0 ≡ (ok [], named, 1)
unfolding create create_request merge_init_provider request parse_decimal
unnamed-create = refl

prj_1-ne-empty : ◌≢◌ {A = String} "prj_1" ""
prj_1-ne-empty h = ground (arith, eq_iff "prj_1" "")

assigning-ReadsProjects : ReadsProjects ⦃N = tenths⦄ assigning
assigning-ReadsProjects req w w' p h =
    let same : shop_stored ≡ p = ground arith in
    (subst (λ q. q.id ≢ "") same prj_1-ne-empty, ap ok same)

observe-create_project_example :
    (p : ApiProject ℕ) × (o : ExternalObservation) × ((assigning.get_project "prj_1" 1).0 ≡ ok p)
    × ((observe ⦃N = tenths⦄ assigning named 1).0 ≡ ok o)
    × (o.resource_exists ≡ true)
    × ((o.resource_up_to_date ≡ true) ↔ ProjectMatches ⦃N = tenths⦄ shop p)
observe-create_project_example =
    observe-create_project ⦃N = tenths⦄ assigning unnamed named 0 1 [] assigning-ReadsProjects
      unnamed-create
