-- ===== src/Tests/Creating.antt =====
-- Create of internal/controller/feature/feature.go over a service that creates features without
-- environments and rules.
use provider_growthbook.Base.{
  ℕ, String, true, Option, none, some, List, [], ◌≡◌, refl, sym, ap, arith, string_eq,
}
use provider_growthbook.Apis.Feature.{Feature}
use provider_growthbook.Controller.Managed.{ExternalObservation}
use provider_growthbook.Growthbook.Errors.{plain, Result, ok, err}
use provider_growthbook.Growthbook.Feature.{
  Feature as ApiFeature, FeatureRequest, FeatureEnvironmentRequest, FeatureRule as ApiRule,
}
use provider_growthbook.Feature.RulesConvert.{rules_request}
use provider_growthbook.Feature.Convert.{
  create_request, update_request, update_body, observation, environments_request,
  merge_init_provider, merge_value_fields, merge_metadata_fields,
}
use provider_growthbook.Feature.External.{FeatureClient, observe, create}
use provider_growthbook.Feature.Creating.{
  IsCreated, OwnsValues, CreatesFeatures, observe-create_feature,
}
use provider_growthbook.Tests.Data.{tenths, spec_with, stored_with, dark_mode_with}
use provider_growthbook.Tests.Lifecycle.{read, apply_request, apply_request-IsPatched}

abbrev blank : FeatureRequest ℕ → ApiFeature ℕ
blank req = record (stored_with none) {
  value_type = req.value_type;
  default_value = "";
  tags = none;
}

abbrev made :
    Option (List (String × FeatureEnvironmentRequest))
    → Option (Option (List (ApiRule ℕ)))
    → FeatureRequest ℕ
    → Option (ApiFeature ℕ)
    → Result (ApiFeature ℕ) × Option (ApiFeature ℕ)
made none none req w = (ok (apply_request req (blank req)), some (apply_request req (blank req)))
made (some e) r req w = (err (plain "unsupported"), w)
made none (some r) req w = (err (plain "unsupported"), w)

abbrev creating : FeatureClient ℕ (Option (ApiFeature ℕ))
creating = record {
  get_feature = λ id w. (read w, w);
  create_feature = λ req w. made req.environments req.rules req w;
  update_feature = λ id req w. (err (plain "unsupported"), w);
  delete_feature = λ id w. (ok tt, none);
}

made-IsCreated :
    (e : Option (List (String × FeatureEnvironmentRequest)))
    (r : Option (Option (List (ApiRule ℕ)))) (req : FeatureRequest ℕ) (w w' : Option (ApiFeature ℕ))
    (f : ApiFeature ℕ)
    → req.environments ≡ e
    → req.rules ≡ r
    → made e r req w ≡ (ok f, w')
    → (new : ApiFeature ℕ) × (read w' ≡ ok new) × IsCreated req new
made-IsCreated none none req w w' f p q h = (
  apply_request req (blank req),
  ap read (sym (ap (λ r. r.1) h)),
  (blank req, refl, refl, refl, apply_request-IsPatched req (blank req) p q),
)
made-IsCreated (some e) r req w w' f p q h = ground arith
made-IsCreated none (some r) req w w' f p q h = ground arith

creating-CreatesFeatures : CreatesFeatures ⦃N = tenths⦄ creating
creating-CreatesFeatures req w w' f h =
    made-IsCreated req.environments req.rules req w w' f refl refl h

-- The project is left to initProvider.
abbrev plain_mode : Feature
plain_mode = dark_mode_with (record (spec_with none) { environments = none })

abbrev plain_request : FeatureRequest ℕ
plain_request =
    record (update_body ⦃N = tenths⦄ (record plain_mode.for_provider { project = some "prj_1" })
      none) { id = "dark-mode"; value_type = "boolean" }

abbrev plain_feature : ApiFeature ℕ
plain_feature = apply_request plain_request (blank plain_request)

abbrev plain_after : Feature
plain_after = record plain_mode { at_provider = observation plain_feature }

plain_mode-create :
    create ⦃N = tenths⦄ creating plain_mode none ≡ (ok [], plain_after, some plain_feature)
unfolding create create_request update_request rules_request environments_request
    merge_init_provider merge_value_fields merge_metadata_fields
plain_mode-create = refl

plain_mode-OwnsValues : OwnsValues plain_mode.for_provider plain_mode.init_provider
plain_mode-OwnsValues = ((λ e. refl), λ e. refl)

observe-create_feature_example :
    (o : ExternalObservation) × ((observe ⦃N = tenths⦄ creating plain_after (some plain_feature)).0
      ≡ ok o)
    × (o.resource_exists ≡ true)
    × (o.resource_up_to_date ≡ true)
observe-create_feature_example =
    observe-create_feature ⦃N = tenths⦄ creating plain_mode plain_after none (some plain_feature) []
      creating-CreatesFeatures plain_mode-OwnsValues tt tt plain_mode-create
