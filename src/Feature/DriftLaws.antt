-- ===== src/Feature/DriftLaws.antt =====
-- The parts of `isUpToDate` of internal/controller/feature against those of `FeatureMatches`.
use provider_growthbook.Base.{
  String, Bool, true, false, Option, none, some, List, [], ◌∷◌, ◌≡◌, ◌↔◌, arith, ◌!=◌, nat_eq,
  string_eq, bool_eq, if◌then◌else◌,
}
use provider_growthbook.Base.Lists.{length, elems, All, Pointwise}
use provider_growthbook.Base.Float.{FloatOps, parse_float}
use provider_growthbook.Apis.Feature.{FeatureRule, SavedGroupTargeting, FeatureRuleVariation}
use provider_growthbook.Growthbook.Feature.{
  FeatureRule as ApiRule, FeatureSavedGroupTargeting, FeatureRuleVariation as ApiVariation,
}
use provider_growthbook.Feature.SameSet.{same_set, same_set-iff_perm}
use provider_growthbook.Feature.RulesConvert.{deref_string, deref_bool}
use provider_growthbook.Feature.RulesDrift.{
  pairwise, parsed_matches, value_matches, saved_group_up_to_date, saved_groups_up_to_date,
  last_value, variations_found, id_differs, variations_up_to_date, environments_rule_up_to_date,
  coverage_up_to_date, rule_value_up_to_date,
}
use provider_growthbook.Feature.Matches.{
  Agrees, GroupMatches, VariationsMatch, ScopeMatches, CoverageMatches, CoverageIs,
}
use text.Mathlib.TextEquality.{eq_iff}

module _ {ℓ κ} {A : Type ℓ} {B : Type κ} (test : A → B → Bool) (R : A → B → Type 0) where
  -- A test that decides a relation decides it place by place.
  pub pairwise_iff :
      ((a : A) (b : B) → (test a b ≡ true) ↔ R a b)
      → (xs : List A) (ys : List B)
      → (pairwise test xs ys ≡ true) × (length xs ≡ length ys) ↔ Pointwise R xs ys
  unfolding pairwise
  pairwise_iff h [] [] = ground arith
  pairwise_iff h [] (y ∷ ys) = ground arith
  pairwise_iff h (x ∷ xs) [] = ground arith
  pairwise_iff h (x ∷ xs) (y ∷ ys) = ground (arith, h x y, pairwise_iff h xs ys)

saved_group_up_to_date_iff :
    (w : SavedGroupTargeting) (g : FeatureSavedGroupTargeting)
    → (saved_group_up_to_date w g ≡ true) ↔ GroupMatches w g
unfolding saved_group_up_to_date
saved_group_up_to_date_iff w g =
    ground (arith, eq_iff w.match g.match, same_set-iff_perm w.ids g.ids)

pub saved_groups_up_to_date_iff :
    (w : Option (List SavedGroupTargeting)) (g : Option (List FeatureSavedGroupTargeting))
    → (saved_groups_up_to_date w g ≡ true) ↔ Pointwise GroupMatches (elems w) (elems g)
unfolding saved_groups_up_to_date
saved_groups_up_to_date_iff w g = ground (
  arith,
  pairwise_iff saved_group_up_to_date GroupMatches saved_group_up_to_date_iff (elems w) (elems g),
)

value_matches_iff :
    (o : Option String) (value : String) → (value_matches o value ≡ true) ↔ (o ≡ some value)
value_matches_iff none value = ground arith
value_matches_iff (some gv) value = ground (arith, eq_iff gv value)

variations_found_iff :
    (w : List FeatureRuleVariation) (g : List ApiVariation)
    → (variations_found w g ≡ true) ↔ All (λ v. last_value v.variation_id g ≡ some v.value) w
unfolding variations_found
variations_found_iff [] g = ground arith
variations_found_iff (v ∷ w) g =
    ground
      (arith, value_matches_iff (last_value v.variation_id g) v.value, variations_found_iff w g)

pub variations_up_to_date_iff :
    (w : Option (List FeatureRuleVariation)) (g : Option (List ApiVariation))
    → (variations_up_to_date w g ≡ true) ↔ VariationsMatch (elems w) (elems g)
unfolding variations_up_to_date
variations_up_to_date_iff w g = ground (arith, variations_found_iff (elems w) (elems g))

pub id_differs_iff : (w : Option String) (id : String) → (id_differs w id ≡ false) ↔ Agrees w id
id_differs_iff none id = ground arith
id_differs_iff (some w) id = ground (arith, eq_iff w id)

module _ {Float : Type 0} where
  pub environments_rule_up_to_date_iff :
      (w : FeatureRule) (g : ApiRule Float)
      → (environments_rule_up_to_date w g ≡ true)
        ↔ ScopeMatches
            (deref_bool w.all_environments)
            w.environments
            g.all_environments
            g.environments
  unfolding environments_rule_up_to_date
  environments_rule_up_to_date_iff w g =
      elim (deref_bool w.all_environments)
        as (λ b.
          ((if b != g.all_environments
              then false
              else if b
              then true
              else same_set w.environments g.environments)
            ≡ true)
          ↔ ScopeMatches b w.environments g.all_environments g.environments) [
            | true ↦ ground arith
            | false ↦ ground (arith, same_set-iff_perm w.environments g.environments)
          ]

module _ {Float : Type 0} ⦃N : FloatOps Float⦄ where
  parsed_matches_iff : (o g : Option Float) → (parsed_matches o g ≡ true) ↔ CoverageIs o g
  parsed_matches_iff none g = ground arith
  parsed_matches_iff (some f) none = ground arith
  parsed_matches_iff (some f) (some g) = ground arith

  pub coverage_up_to_date_iff :
      (w : Option String) (g : Option Float)
      → (coverage_up_to_date w g ≡ true) ↔ CoverageMatches w g
  unfolding coverage_up_to_date
  coverage_up_to_date_iff none g = ground arith
  coverage_up_to_date_iff (some w) g = parsed_matches_iff (parse_float w) g

  pub rule_value_up_to_date_iff :
      (w : FeatureRule) (g : ApiRule Float)
      → (rule_value_up_to_date w g ≡ true) ↔ (
          (deref_string w.value ≡ g.value)
          × (deref_string w.hash_attribute ≡ g.hash_attribute)
          × (deref_string w.experiment_id ≡ g.experiment_id)
          × CoverageMatches w.coverage g.coverage
          × VariationsMatch (elems w.variations) (elems g.variations))
  unfolding rule_value_up_to_date
  rule_value_up_to_date_iff w g = ground (
    arith,
    eq_iff (deref_string w.value) g.value,
    eq_iff (deref_string w.hash_attribute) g.hash_attribute,
    eq_iff (deref_string w.experiment_id) g.experiment_id,
    coverage_up_to_date_iff w.coverage g.coverage,
    variations_up_to_date_iff w.variations g.variations,
  )
