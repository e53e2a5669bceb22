-- ===== src/Feature/RulesDrift.antt =====
-- internal/controller/feature/rules_drift.go
use provider_growthbook.Base.{
  String, Bool, true, false, not, Option, none, some, List, [], ◌∷◌, ◌==◌, ◌!=◌, nat_eq, string_eq,
  bool_eq, if◌then◌else◌,
}
use provider_growthbook.Base.Lists.{length, elems}
use provider_growthbook.Base.Float.{FloatOps, parse_float, float_eq}
use provider_growthbook.Apis.Feature.{FeatureRule, SavedGroupTargeting, FeatureRuleVariation}
use provider_growthbook.Growthbook.Feature.{
  FeatureRule as ApiRule, FeatureSavedGroupTargeting, FeatureRuleVariation as ApiVariation,
}
use provider_growthbook.Feature.SameSet.{same_set}
use provider_growthbook.Feature.RulesConvert.{deref_string, deref_bool, enabled_or_true}

-- The loop over two slices of one length.
unfoldable pub pairwise {ℓ κ} : {A : Type ℓ} {B : Type κ} → (A → B → Bool) → List A → List B → Bool
pairwise test [] gs = true
pairwise test (w ∷ ws) [] = false
pairwise test (w ∷ ws) (g ∷ gs) = if test w g then pairwise test ws gs else false

unfoldable pub saved_group_up_to_date : SavedGroupTargeting → FeatureSavedGroupTargeting → Bool
saved_group_up_to_date w g =
    if w.match != g.match then false else if not (same_set w.ids g.ids) then false else true

unfoldable pub saved_groups_up_to_date :
    Option (List SavedGroupTargeting) → Option (List FeatureSavedGroupTargeting) → Bool
saved_groups_up_to_date w g =
    if length (elems w) != length (elems g)
    then false
    else pairwise saved_group_up_to_date (elems w) (elems g)

-- A read of the map `gm` that the first loop fills: the last entry of an id wins.
unfoldable pub last_value : String → List ApiVariation → Option String
last_value k [] = none
last_value k (v ∷ vs) = elim (last_value k vs) [
  | some later ↦ some later
  | none ↦ if v.variation_id == k then some v.value else none
]

abbrev pub value_matches : Option String → String → Bool
value_matches none value = false
value_matches (some gv) value = gv == value

unfoldable pub variations_found : List FeatureRuleVariation → List ApiVariation → Bool
variations_found [] g = true
variations_found (v ∷ w) g =
    if value_matches (last_value v.variation_id g) v.value then variations_found w g else false

unfoldable pub variations_up_to_date :
    Option (List FeatureRuleVariation) → Option (List ApiVariation) → Bool
variations_up_to_date w g =
    if length (elems w) != length (elems g) then false else variations_found (elems w) (elems g)

module _ {Float : Type 0} where
  unfoldable pub environments_rule_up_to_date : FeatureRule → ApiRule Float → Bool
  environments_rule_up_to_date w g =
      if deref_bool w.all_environments != g.all_environments
      then false
      else if deref_bool w.all_environments
      then true
      else same_set w.environments g.environments

-- `w.ID != nil && *w.ID != g.ID`
abbrev pub id_differs : Option String → String → Bool
id_differs none id = false
id_differs (some w) id = w != id

module _ {Float : Type 0} ⦃N : FloatOps Float⦄ where
  abbrev pub parsed_matches : Option Float → Option Float → Bool
  parsed_matches none g = false
  parsed_matches (some f) none = false
  parsed_matches (some f) (some g) = float_eq f g

  unfoldable pub coverage_up_to_date : Option String → Option Float → Bool
  coverage_up_to_date none none = true
  coverage_up_to_date none (some _) = false
  coverage_up_to_date (some w) g = parsed_matches (parse_float w) g

  unfoldable pub rule_value_up_to_date : FeatureRule → ApiRule Float → Bool
  rule_value_up_to_date w g =
      if deref_string w.value != g.value
      then false
      else if deref_string w.hash_attribute != g.hash_attribute
      then false
      else if deref_string w.experiment_id != g.experiment_id
      then false
      else if not (coverage_up_to_date w.coverage g.coverage)
      then false
      else variations_up_to_date w.variations g.variations

  unfoldable pub rule_up_to_date : FeatureRule → ApiRule Float → Bool
  rule_up_to_date w g =
      if w.type != g.type
      then false
      else if id_differs w.id g.id
      then false
      else if enabled_or_true w.enabled != enabled_or_true g.enabled
      then false
      else if deref_string w.condition != g.condition
      then false
      else if not (saved_groups_up_to_date w.saved_groups g.saved_groups)
      then false
      else if not (environments_rule_up_to_date w g)
      then false
      else rule_value_up_to_date w g

  unfoldable pub rules_up_to_date : Option (List FeatureRule) → Option (List (ApiRule Float)) → Bool
  rules_up_to_date none got = true
  rules_up_to_date (some want) got =
      if length want != length (elems got) then false else pairwise rule_up_to_date want (elems got)
