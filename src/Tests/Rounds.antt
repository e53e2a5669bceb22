-- ===== src/Tests/Rounds.antt =====
-- internal/controller/feature/feature.go in several steps over a service that holds one feature.
use provider_growthbook.Base.{ℕ, none, some, [], ◌≡◌, ◌≤◌, refl, arith, subst}
use provider_growthbook.Apis.Feature.{Feature}
use provider_growthbook.Growthbook.Errors.{ok}
use provider_growthbook.Growthbook.Feature.{Feature as ApiFeature}
use provider_growthbook.Feature.Convert.{
  update_body, update_request, environments_request, value_up_to_date, metadata_up_to_date,
  ownership_up_to_date, observation, late_initialize, is_up_to_date,
}
use provider_growthbook.Feature.RulesConvert.{rules_request}
use provider_growthbook.Feature.SameSet.{same_set}
use provider_growthbook.Feature.External.{observed, observe, update}
use provider_growthbook.Feature.Steps.{Step, Reach, IsKept, Reach-IsKept}
use provider_growthbook.Feature.Reconcile.{CanConverge}
use provider_growthbook.Feature.Rounds.{Converges, Corrects, Rounds, Rounds-short}
use provider_growthbook.Tests.Data.{tenths, stored_with}
use provider_growthbook.Tests.Lifecycle.{
  apply_request, one_feature, held, one_feature-StoresUpdates, renamed, renamed_feature,
  renamed_after, renamed-update, renamed-CanConverge,
}

-- Update, then somebody deletes the feature, then Update again, which fails.
two_steps : Reach ⦃N = tenths⦄ one_feature renamed held renamed_after none
two_steps =
    Reach.next {mid = renamed_after} {u = some renamed_feature}
      (Reach.next {mid = renamed} {u = held} Reach.here (Step.updates (ok []) renamed-update))
      (Step.elsewhere refl)

Reach-IsKept_example : IsKept renamed renamed_after
Reach-IsKept_example =
    Reach-IsKept ⦃N = tenths⦄ one_feature renamed held renamed_after none two_steps

abbrev filled : Feature
unfolding late_initialize
filled = (observed ⦃N = tenths⦄ renamed (stored_with none)).1

abbrev corrected_feature : ApiFeature ℕ
unfolding filled
corrected_feature =
    apply_request (update_body ⦃N = tenths⦄ filled.for_provider none) (stored_with none)

abbrev corrected : Feature
unfolding filled corrected_feature
corrected = record filled { at_provider = observation corrected_feature }

one_correction : Corrects ⦃N = tenths⦄ one_feature renamed held corrected (some corrected_feature)
unfolding observe update update_request rules_request environments_request late_initialize
    is_up_to_date value_up_to_date metadata_up_to_date ownership_up_to_date same_set filled
    corrected_feature corrected
one_correction = (
  (observed ⦃N = tenths⦄ renamed (stored_with none)).0,
  (filled, (held, ([], (refl, refl, refl, refl)))),
)

renamed-Converges : Converges ⦃N = tenths⦄ one_feature renamed held
renamed-Converges old h =
    let same : stored_with none ≡ old = ground arith in
    subst (CanConverge ⦃N = tenths⦄ renamed.for_provider) same renamed-CanConverge

Rounds-short_example : 1 ≤ 1
Rounds-short_example =
    Rounds-short ⦃N = tenths⦄ one_feature 1 renamed held one_feature-StoresUpdates (λ id w. refl)
      renamed-Converges
      (Rounds.round {n = 0} {after = corrected} {w' = some corrected_feature} one_correction
        Rounds.done)
