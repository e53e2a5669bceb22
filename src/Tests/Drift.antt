-- ===== src/Tests/Drift.antt =====
-- internal/controller/feature/convert.go and the two files on rules, at concrete specs and features.
use mathlib.Core.List.{Perm, Nodup, Pairwise, not-mem-nil, mem_of_ne_of_mem}
use text.Mathlib.TextEquality.{eq_iff}
use mathlib.Core.List.Perm
use provider_growthbook.Base.{
  ℕ, String, true, false, none, some, List, [], ◌∷◌, map, ◌≡◌, ◌↔◌, inl, refl, arith,
}
use provider_growthbook.Apis.Feature.{FeatureParameters, FeatureRuleVariation}
use provider_growthbook.Growthbook.Errors.{ok}
use provider_growthbook.Growthbook.Feature.{FeatureRequest}
use provider_growthbook.Feature.SameSet.{same_set, same_set-iff_perm}
use provider_growthbook.Feature.RulesConvert.{
  variation_request, rule_base, rules_request, rules_from, rule_request, saved_groups_request,
}
use provider_growthbook.Feature.RulesDrift.{variations_up_to_date}
use provider_growthbook.Feature.RulesRequest.{RulesOutcome, rules_request-outcome}
use provider_growthbook.Feature.Variations.{variations_up_to_date-iff_perm}
use provider_growthbook.Feature.Convert.{
  update_body, environments_request, update_request, create_request, is_up_to_date, late_initialize,
}
use provider_growthbook.Feature.Matches.{FeatureMatches}
use provider_growthbook.Feature.Service.{IsPatched}
use provider_growthbook.Feature.UpToDate.{is_up_to_date_iff}
use provider_growthbook.Feature.Reconcile.{
  CanConverge, is_up_to_date-update_request, is_up_to_date-clearing,
}
use provider_growthbook.Feature.LateInitialize.{
  is_up_to_date-late_initialize, late_initialize-IsLateInitialized, IsLateInitialized,
}
use provider_growthbook.Feature.Merge.{IsMerged, CreateIs, create_request-IsMerged}
use provider_growthbook.Tests.Data.{
  tenths, rollout, spec, spec_with, no_init, stored, stored_with, stored_before,
}

is_up_to_date_iff_example :
    (is_up_to_date ⦃N = tenths⦄ spec stored ≡ true) ↔ FeatureMatches ⦃N = tenths⦄ spec stored
is_up_to_date_iff_example = is_up_to_date_iff ⦃N = tenths⦄ spec stored

same_set-iff_perm_example :
    (same_set (some ("a" ∷ "b" ∷ [])) (some ("b" ∷ "a" ∷ [])) ≡ true)
    ↔ Perm {A = String} ("a" ∷ "b" ∷ []) ("b" ∷ "a" ∷ [])
same_set-iff_perm_example = same_set-iff_perm (some ("a" ∷ "b" ∷ [])) (some ("b" ∷ "a" ∷ []))

rules_request-outcome_example :
    RulesOutcome {Float = ℕ} ⦃N = tenths⦄
      (some (rollout "0.5" ∷ rollout "half" ∷ []))
      (rules_request ⦃N = tenths⦄ (some (rollout "0.5" ∷ rollout "half" ∷ [])))
rules_request-outcome_example =
    rules_request-outcome ℕ ⦃N = tenths⦄ (some (rollout "0.5" ∷ rollout "half" ∷ []))

is_up_to_date-late_initialize_example :
    is_up_to_date ⦃N = tenths⦄ (late_initialize spec no_init stored).0 stored
    ≡ is_up_to_date ⦃N = tenths⦄ spec stored
is_up_to_date-late_initialize_example =
    is_up_to_date-late_initialize ⦃N = tenths⦄ spec no_init stored

late_initialize-IsLateInitialized_example :
    IsLateInitialized ℕ spec no_init stored
      (late_initialize spec no_init stored).0
      (late_initialize spec no_init stored).1
late_initialize-IsLateInitialized_example = late_initialize-IsLateInitialized spec no_init stored

create_request-IsMerged_example :
    (merged : FeatureParameters) × IsMerged spec no_init merged
    × CreateIs ⦃N = tenths⦄ "dark-mode" merged
        (update_request ⦃N = tenths⦄ merged)
        (create_request ⦃N = tenths⦄ "dark-mode" spec no_init)
create_request-IsMerged_example = create_request-IsMerged ℕ ⦃N = tenths⦄ "dark-mode" spec no_init

one_id : (x : String) → Nodup {A = String} (x ∷ [])
one_id x = Pairwise.cons (λ a m e. not-mem-nil m) Pairwise.nil

other_id : (a : String) → "v1" ≡ a → a ≡ "v2" → ⊥
other_id a e h = ground (arith, eq_iff "v1" "v2")

distinct_ids : Nodup {A = String} ("v1" ∷ "v2" ∷ [])
distinct_ids =
    Pairwise.cons (λ a m e. not-mem-nil (mem_of_ne_of_mem (other_id a e) m)) (one_id "v2")

abbrev two_variations : List FeatureRuleVariation
two_variations =
    record { variation_id = "v1"; value = "on" }
    ∷ record { variation_id = "v2"; value = "off" }
    ∷ []

variations_up_to_date-iff_perm_example :
    (variations_up_to_date (some two_variations) (some (map variation_request two_variations))
      ≡ true)
    ↔ Perm (map variation_request two_variations) (map variation_request two_variations)
variations_up_to_date-iff_perm_example =
    variations_up_to_date-iff_perm (some two_variations)
      (some (map variation_request two_variations)) distinct_ids

one_rule-CanConverge : CanConverge ⦃N = tenths⦄ spec stored_before
one_rule-CanConverge = record {
  value_type = refl;
  default_value = ground arith;
  tags = ground arith;
  rules = (record { coverage = refl; id = ground arith; variations = one_id "v1" }, tt);
}

abbrev sent : FeatureRequest ℕ
sent =
    update_body ⦃N = tenths⦄ spec
      (some (some (rule_base ⦃N = tenths⦄ (rollout "0.5") (some 5) ∷ [])))

sent-update : update_request ⦃N = tenths⦄ spec ≡ ok sent
unfolding update_request rules_request rules_from rule_request
sent-update = refl

stored-IsPatched : IsPatched sent stored_before stored
unfolding environments_request saved_groups_request
stored-IsPatched = record {
  value_type = refl;
  default_value = (λ h. refl, λ h. refl);
  description = refl;
  project = refl;
  tags = Perm.swap "beta" "web" [];
  archived = refl;
  owner = refl;
  environments = (refl, tt);
  rules = (
    record {
      type = refl;
      id = λ h. refl;
      enabled = refl;
      condition = refl;
      saved_groups = tt;
      all_environments = refl;
      environments = Perm.rfl;
      value = refl;
      coverage = refl;
      hash_attribute = refl;
      experiment_id = refl;
      variations = Perm.rfl;
    },
    tt,
  );
}

is_up_to_date-update_request_example : is_up_to_date ⦃N = tenths⦄ spec stored ≡ true
is_up_to_date-update_request_example =
    is_up_to_date-update_request ⦃N = tenths⦄ spec sent stored_before stored sent-update
      stored-IsPatched one_rule-CanConverge

-- The list of tags is set to the empty one.
abbrev untagged : FeatureParameters
untagged = record (spec_with none) { tags = some [] }

abbrev kept : FeatureRequest ℕ
kept = update_body ⦃N = tenths⦄ untagged none

kept-update : update_request ⦃N = tenths⦄ untagged ≡ ok kept
unfolding update_request rules_request rules_from rule_request
kept-update = refl

kept-IsPatched : IsPatched kept (stored_with none) (stored_with none)
unfolding environments_request
kept-IsPatched = record {
  value_type = refl;
  default_value = (λ h. refl, λ h. refl);
  description = refl;
  project = refl;
  tags = refl;
  archived = refl;
  owner = refl;
  environments = (refl, tt);
  rules = refl;
}

is_up_to_date-clearing_example : is_up_to_date ⦃N = tenths⦄ untagged (stored_with none) ≡ false
is_up_to_date-clearing_example =
    is_up_to_date-clearing ⦃N = tenths⦄ untagged kept (stored_with none) (stored_with none)
      kept-update kept-IsPatched (inl (refl, ground arith))
