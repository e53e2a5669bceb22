-- ===== src/Feature/RulesConvert.antt =====
-- internal/controller/feature/rules_convert.go
use provider_growthbook.Base.{
  ℕ, suc, String, Bool, true, false, Option, none, some, List, [], ◌∷◌, map,
}
use provider_growthbook.Base.Float.{FloatOps, parse_float}
use provider_growthbook.Apis.Feature.{
  FeatureRule, SavedGroupTargeting, FeatureRuleVariation, FeatureRuleObservation,
}
use provider_growthbook.Growthbook.Errors.{Result, ok, err, wrapped, wrapped_at, plain, ◌>>=◌}
use provider_growthbook.Growthbook.Feature.{
  FeatureRule as ApiRule, FeatureSavedGroupTargeting, FeatureRuleVariation as ApiVariation,
}

abbrev pub deref_string : Option String → String
deref_string none = ""
deref_string (some s) = s

abbrev pub deref_bool : Option Bool → Bool
deref_bool none = false
deref_bool (some b) = b

abbrev pub enabled_or_true : Option Bool → Bool
enabled_or_true none = true
enabled_or_true (some b) = b

abbrev pub saved_group_request : SavedGroupTargeting → FeatureSavedGroupTargeting
saved_group_request sg = record { match = sg.match; ids = sg.ids }

unfoldable pub saved_groups_request :
    Option (List SavedGroupTargeting) → Option (List FeatureSavedGroupTargeting)
saved_groups_request none = none
saved_groups_request (some entries) = some (map saved_group_request entries)

abbrev pub variation_request : FeatureRuleVariation → ApiVariation
variation_request v = record { variation_id = v.variation_id; value = v.value }

unfoldable pub variations_request : Option (List FeatureRuleVariation) → Option (List ApiVariation)
variations_request none = none
variations_request (some vs) = some (map variation_request vs)

module _ {Float : Type 0} ⦃N : FloatOps Float⦄ where
  -- The rule with all but its coverage.
  abbrev pub rule_base : FeatureRule → Option Float → ApiRule Float
  rule_base r coverage = record {
    type = r.type;
    id = deref_string r.id;
    description = deref_string r.description;
    enabled = r.enabled;
    condition = deref_string r.condition;
    saved_groups = saved_groups_request r.saved_groups;
    all_environments = deref_bool r.all_environments;
    environments = r.environments;
    value = deref_string r.value;
    coverage = coverage;
    hash_attribute = deref_string r.hash_attribute;
    experiment_id = deref_string r.experiment_id;
    variations = variations_request r.variations;
  }

  abbrev pub coverage_of : Option Float → Result (Option Float)
  coverage_of none = err (wrapped "coverage is not a decimal" (plain "strconv.ParseFloat"))
  coverage_of (some f) = ok (some f)

  abbrev pub parse_coverage : Option String → Result (Option Float)
  parse_coverage none = ok none
  parse_coverage (some s) = coverage_of (parse_float s)

  unfoldable pub rule_request : FeatureRule → Result (ApiRule Float)
  rule_request r = do coverage ← parse_coverage r.coverage; ok (rule_base r coverage)

  abbrev pub at_index : ℕ → Result (ApiRule Float) → Result (ApiRule Float)
  at_index i (ok gr) = ok gr
  at_index i (err e) = err (wrapped_at "rule" i e)

  -- The loop over the rules from index `i` on.
  unfoldable pub rules_from : ℕ → List FeatureRule → Result (List (ApiRule Float))
  rules_from i [] = ok []
  rules_from i (r ∷ rules) = do
    gr ← at_index i (rule_request r)
    out ← rules_from (suc i) rules
    ok (gr ∷ out)

  unfoldable pub rules_request :
      Option (List FeatureRule) → Result (Option (Option (List (ApiRule Float))))
  rules_request none = ok none
  rules_request (some rules) = do out ← rules_from 0 rules; ok (some (some out))

module _ {Float : Type 0} where
  abbrev rule_observation : ApiRule Float → FeatureRuleObservation
  rule_observation r = record {
    id = r.id;
    type = r.type;
    enabled = enabled_or_true r.enabled;
    environments = r.environments;
  }

  unfoldable pub rules_observation :
      Option (List (ApiRule Float)) → Option (List FeatureRuleObservation)
  rules_observation none = none
  rules_observation (some rules) = some (map rule_observation rules)
