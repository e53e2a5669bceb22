-- ===== src/Tests/Data.antt =====
-- The numbers, resources and features that the other tests share: apis/feature and
-- internal/clients/growthbook/feature.go at concrete values.
use mathlib.Core.Int.{ℤ}
use mathlib.Core.Nat.{zero}
use provider_growthbook.Base.{
  ℕ, String, true, false, Option, none, some, List, [], ◌∷◌, ◌==◌, nat_eq, string_eq, if◌then◌else◌,
}
use provider_growthbook.Base.Float.{FloatOps}
use provider_growthbook.Apis.Feature.{
  Feature, FeatureRule, FeatureParameters, FeatureInitParameters,
}
use provider_growthbook.Growthbook.Feature.{Feature as ApiFeature, FeatureRule as ApiRule}
use provider_growthbook.Feature.RulesConvert.{rule_base}

-- Numbers as tenths.
abbrev pub tenths : FloatOps ℕ
tenths = record {
  parse_float = λ s. if s == "0.5" then some 5 else if s == "0.50" then some 5 else none;
  float_eq = ◌==◌;
}

abbrev pub rollout : String → FeatureRule
rollout coverage = record {
  type = "rollout";
  id = none;
  description = some "half of the users";
  enabled = none;
  condition = none;
  saved_groups = none;
  all_environments = some true;
  environments = none;
  value = some "true";
  coverage = some coverage;
  hash_attribute = some "id";
  experiment_id = none;
  variations = some (record { variation_id = "v1"; value = "on" } ∷ []);
}

abbrev pub spec_with : Option (List FeatureRule) → FeatureParameters
spec_with rules = record {
  value_type = "boolean";
  default_value = "false";
  description = none;
  project = none;
  tags = some ("web" ∷ "beta" ∷ []);
  archived = some false;
  owner = some "ann";
  environments = some (("production", record { enabled = some true }) ∷ []);
  rules = rules;
}

abbrev pub spec : FeatureParameters
spec = spec_with (some (rollout "0.5" ∷ []))

abbrev pub no_init : FeatureInitParameters
no_init = record {
  value_type = none;
  default_value = none;
  description = none;
  project = some "prj_1";
  tags = none;
  archived = none;
  owner = none;
  environments = none;
  rules = none;
}

abbrev pub stored_with : Option (List (ApiRule ℕ)) → ApiFeature ℕ
stored_with rules = record {
  id = "dark-mode";
  archived = false;
  description = "a theme";
  owner = "ann";
  project = "prj_9";
  value_type = "boolean";
  default_value = "false";
  tags = some ("beta" ∷ "web" ∷ []);
  environments = some (("production", record { enabled = true }) ∷ []);
  rules = rules;
  date_created = "";
  date_updated = "";
  revision = none;
}

abbrev pub stored : ApiFeature ℕ
stored = stored_with (some (rule_base ⦃N = tenths⦄ (rollout "0.5") (some 5) ∷ []))

-- The feature before the rule was added.
abbrev pub stored_before : ApiFeature ℕ
stored_before = record (stored_with none) { description = "a theme"; tags = some ("old" ∷ []) }

abbrev pub dark_mode_with : FeatureParameters → Feature
dark_mode_with p = record {
  namespace = "default";
  provider_config_reference = record { kind = "ProviderConfig"; name = "default" };
  external_name = "dark-mode";
  for_provider = p;
  init_provider = no_init;
  at_provider = record {
    id = "";
    revision = record { version = ℤ.pos zero };
    date_created = "";
    date_updated = "";
    environments = none;
    rules = none;
  };
  available = false;
}

abbrev pub dark_mode : Feature
dark_mode = dark_mode_with spec
