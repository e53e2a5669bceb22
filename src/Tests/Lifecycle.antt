-- ===== src/Tests/Lifecycle.antt =====
-- internal/controller/feature/feature.go over a service that holds one feature.
use mathlib.Core.List.Perm
use text.Mathlib.TextEquality.{eq_iff}
use provider_growthbook.Base.{
  ℕ, String, Bool, true, false, Option, none, some, List, [], ◌∷◌, ◌≡◌, refl, arith, ◌==◌,
  string_eq, if◌then◌else◌, sym, ap, subst,
}
use provider_growthbook.Apis.Feature.{Feature}
use provider_growthbook.Controller.Managed.{ExternalObservation, absent}
use provider_growthbook.Growthbook.Text.{utf8}
use provider_growthbook.Growthbook.Errors.{
  Error, api_error, plain, Result, ok, err, is_not_found, as_api_error,
}
use provider_growthbook.Growthbook.Feature.{
  Feature as ApiFeature, FeatureRequest, FeatureEnvironmentRequest, FeatureRule as ApiRule,
}
use provider_growthbook.Feature.RulesConvert.{rules_request}
use provider_growthbook.Feature.Convert.{
  create_request, update_request, update_body, observation, environments_request,
}
use provider_growthbook.Feature.Service.{TextPatched, FieldPatched, SetPatched, IsPatched}
use provider_growthbook.Feature.External.{FeatureClient, observe, create, update, delete}
use provider_growthbook.Feature.Lifecycle.{
  create_call, update_call, logging, CallsAfter, DeletesForGood, delete-CallsAfter, observe-delete,
}
use provider_growthbook.Feature.Observing.{
  Observes, observe-Observes, CallsFor, create-update-calls, StoresUpdates, observe-update,
}
use provider_growthbook.Feature.Reconcile.{CanConverge}
use provider_growthbook.Tests.Data.{tenths, spec_with, stored_with, dark_mode, dark_mode_with}

abbrev missing : Error
missing = api_error (record { status_code = 404; message = [] })

abbrev pub patched : {A : Type 0} → Option A → A → A
patched none old = old
patched (some v) old = v

abbrev pub patched_set : Option (List String) → Option (List String) → Option (List String)
patched_set none old = old
patched_set (some []) old = old
patched_set (some (x ∷ xs)) old = some (x ∷ xs)

abbrev pub patched_text : String → String → String
patched_text sent old = if sent == "" then old else sent

abbrev pub apply_request : FeatureRequest ℕ → ApiFeature ℕ → ApiFeature ℕ
apply_request req old = record old {
  default_value = patched_text req.default_value old.default_value;
  description = patched req.description old.description;
  project = patched req.project old.project;
  tags = patched_set req.tags old.tags;
  archived = patched req.archived old.archived;
  owner = patched req.owner old.owner;
}

abbrev pub read : Option (ApiFeature ℕ) → Result (ApiFeature ℕ)
read none = err missing
read (some f) = ok f

-- This service takes no update of rules or environments.
abbrev change :
    Option (List (String × FeatureEnvironmentRequest))
    → Option (Option (List (ApiRule ℕ)))
    → FeatureRequest ℕ
    → Option (ApiFeature ℕ)
    → Result (ApiFeature ℕ) × Option (ApiFeature ℕ)
change none none req none = (err missing, none)
change none none req (some f) = (ok (apply_request req f), some (apply_request req f))
change (some e) r req w = (err (plain "unsupported"), w)
change none (some r) req w = (err (plain "unsupported"), w)

abbrev pub one_feature : FeatureClient ℕ (Option (ApiFeature ℕ))
one_feature = record {
  get_feature = λ id w. (read w, w);
  create_feature = λ req w. (err (plain "unsupported"), w);
  update_feature = λ id req w. change req.environments req.rules req w;
  delete_feature = λ id w. (ok tt, none);
}

one_feature-DeletesForGood : DeletesForGood one_feature
unfolding is_not_found as_api_error
one_feature-DeletesForGood id w h = (missing, refl, refl)

abbrev pub held : Option (ApiFeature ℕ)
held = some (stored_with none)

dark_mode-delete : delete one_feature dark_mode held ≡ (ok tt, none)
unfolding delete
dark_mode-delete = refl

observe-delete_example : (observe ⦃N = tenths⦄ one_feature dark_mode none).0 ≡ ok absent
observe-delete_example =
    observe-delete ⦃N = tenths⦄ one_feature dark_mode held none one_feature-DeletesForGood
      dark_mode-delete

-- A service that refuses to delete a feature that is not archived; the world says whether it is.
abbrev refusal : Error
refusal = api_error (record { status_code = 403; message = utf8 "Archive the feature first" })

abbrev delete_archived : Bool → Result (Unit {0}) × Bool
delete_archived true = (ok tt, true)
delete_archived false = (err refusal, false)

abbrev archive_first : FeatureClient ℕ Bool
archive_first = record {
  get_feature = λ id w. (ok (stored_with none), w);
  create_feature = λ req w. (err (plain "unsupported"), w);
  update_feature = λ id req w. (ok (stored_with none), true);
  delete_feature = λ id w. delete_archived w;
}

delete-CallsAfter_example :
    CallsAfter archive_first "dark-mode"
      (err refusal, false)
      (delete (logging archive_first) dark_mode ([], false)).1.0
delete-CallsAfter_example = delete-CallsAfter archive_first dark_mode false

observe-Observes_example :
    Observes ⦃N = tenths⦄ dark_mode
      (one_feature.get_feature "dark-mode" held)
      (observe ⦃N = tenths⦄ one_feature dark_mode held)
observe-Observes_example = observe-Observes ⦃N = tenths⦄ one_feature dark_mode held

create-update-calls_example :
    CallsFor create_call
      (create_request ⦃N = tenths⦄ "dark-mode" dark_mode.for_provider dark_mode.init_provider)
      (create ⦃N = tenths⦄ (logging one_feature) dark_mode ([], held)).2.0
    × CallsFor
        (update_call "dark-mode")
        (update_request ⦃N = tenths⦄ dark_mode.for_provider)
        (update ⦃N = tenths⦄ (logging one_feature) dark_mode ([], held)).2.0
create-update-calls_example = create-update-calls ⦃N = tenths⦄ one_feature dark_mode held

pub TextPatched-patched : (sent old : String) → TextPatched sent old (patched_text sent old)
TextPatched-patched sent old = ground (arith, eq_iff sent "")

pub FieldPatched-patched :
    {A : Type 0} (o : Option A) (old : A) → FieldPatched o old (patched o old)
FieldPatched-patched none old = refl
FieldPatched-patched (some v) old = refl

pub SetPatched-patched : (o old : Option (List String)) → SetPatched o old (patched_set o old)
SetPatched-patched none old = refl
SetPatched-patched (some []) old = refl
SetPatched-patched (some (x ∷ xs)) old = Perm.rfl

pub apply_request-IsPatched :
    (req : FeatureRequest ℕ) (old : ApiFeature ℕ)
    → req.environments ≡ none
    → req.rules ≡ none
    → IsPatched req old (apply_request req old)
apply_request-IsPatched req old no_environments no_rules = record {
  value_type = refl;
  default_value = TextPatched-patched req.default_value old.default_value;
  description = FieldPatched-patched req.description old.description;
  project = FieldPatched-patched req.project old.project;
  tags = SetPatched-patched req.tags old.tags;
  archived = FieldPatched-patched req.archived old.archived;
  owner = FieldPatched-patched req.owner old.owner;
  environments = rw no_environments tt;
  rules = rw no_rules refl;
}

change-stores :
    (e : Option (List (String × FeatureEnvironmentRequest)))
    (r : Option (Option (List (ApiRule ℕ)))) (req : FeatureRequest ℕ) (w w' : Option (ApiFeature ℕ))
    (old f : ApiFeature ℕ)
    → req.environments ≡ e
    → req.rules ≡ r
    → read w ≡ ok old
    → change e r req w ≡ (ok f, w')
    → (new : ApiFeature ℕ) × (read w' ≡ ok new) × IsPatched req old new
change-stores none none req none w' old f p q h k = ground arith
change-stores none none req (some g) w' old f p q h k = (
  apply_request req g,
  ap read (sym (ap (λ r. r.1) k)),
  subst (λ g'. IsPatched req g' (apply_request req g)) (ground arith)
      (apply_request-IsPatched req g p q),
)
change-stores (some e) r req w w' old f p q h k = ground arith
change-stores none (some r) req w w' old f p q h k = ground arith

pub one_feature-StoresUpdates : StoresUpdates ⦃N = tenths⦄ one_feature
one_feature-StoresUpdates id req w w' old f h k =
    change-stores req.environments req.rules req w w' old f refl refl h k

-- A spec that changes the owner and the tags, and leaves environments and rules unmanaged.
abbrev pub renamed : Feature
renamed = dark_mode_with (record (spec_with none) { owner = some "bob"; environments = none })

abbrev renamed_request : FeatureRequest ℕ
renamed_request = update_body ⦃N = tenths⦄ renamed.for_provider none

abbrev pub renamed_feature : ApiFeature ℕ
renamed_feature = apply_request renamed_request (stored_with none)

abbrev pub renamed_after : Feature
renamed_after = record renamed { at_provider = observation renamed_feature }

pub renamed-CanConverge : CanConverge ⦃N = tenths⦄ renamed.for_provider (stored_with none)
renamed-CanConverge = record {
  value_type = refl;
  default_value = ground arith;
  tags = ground arith;
  rules = tt;
}

pub renamed-update :
    update ⦃N = tenths⦄ one_feature renamed held ≡ (ok [], renamed_after, some renamed_feature)
unfolding update update_request rules_request environments_request
renamed-update = refl

observe-update_example :
    (o : ExternalObservation) × ((observe ⦃N = tenths⦄ one_feature renamed_after
        (some renamed_feature)).0
      ≡ ok o)
    × (o.resource_exists ≡ true)
    × (o.resource_up_to_date ≡ true)
observe-update_example =
    observe-update ⦃N = tenths⦄ one_feature renamed renamed_after held (some renamed_feature)
      (stored_with none) [] one_feature-StoresUpdates refl renamed-CanConverge renamed-update
