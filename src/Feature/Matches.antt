-- ===== src/Feature/Matches.antt =====
-- What "up to date" means for a Feature, field by field and without the code's tests: the
-- specification of `isUpToDate` and of its parts in rules_drift.go.
use mathlib.Core.List.{Perm}
use provider_growthbook.Base.{String, Bool, true, false, Option, none, some, List, ◌≡◌}
use provider_growthbook.Base.Lists.{length, elems, All, Pointwise, lookup}
use provider_growthbook.Base.Float.{FloatOps, parse_float, float_eq}
use provider_growthbook.Apis.Feature.{
  FeatureRule, SavedGroupTargeting, FeatureRuleVariation, FeatureParameters, FeatureEnvironment,
}
use provider_growthbook.Growthbook.Feature.{
  FeatureRule as ApiRule, FeatureSavedGroupTargeting, FeatureRuleVariation as ApiVariation,
  Feature as ApiFeature, FeatureEnvironment as ApiEnvironment,
}
use provider_growthbook.Feature.RulesConvert.{deref_string, deref_bool, enabled_or_true}
use provider_growthbook.Feature.RulesDrift.{last_value}

-- A field that the user set has the observed value; one left unset is not looked at.
abbrev pub Agrees {ℓ} : {A : Type ℓ} → Option A → A → Type ℓ
Agrees none v = Unit
Agrees (some a) v = a ≡ v

abbrev pub SameItems : Option (List String) → Option (List String) → Type 0
SameItems a b = Perm (elems a) (elems b)

abbrev pub AgreesAsSet : Option (List String) → Option (List String) → Type 0
AgreesAsSet none ext = Unit
AgreesAsSet (some p) ext = SameItems (some p) ext

abbrev pub GroupMatches : SavedGroupTargeting → FeatureSavedGroupTargeting → Type 0
GroupMatches w g = (w.match ≡ g.match) × SameItems w.ids g.ids

-- The observed variations have as many entries, and the last one of each desired id has the
-- desired value.
abbrev pub VariationsMatch : List FeatureRuleVariation → List ApiVariation → Type 0
VariationsMatch w g =
    (length w ≡ length g) × All (λ v. last_value v.variation_id g ≡ some v.value) w

abbrev pub ScopeMatches : Bool → Option (List String) → Bool → Option (List String) → Type 0
ScopeMatches true w all g = all ≡ true
ScopeMatches false w all g = (all ≡ false) × SameItems w g

abbrev pub EnabledIs : Option Bool → Option ApiEnvironment → Type 0
EnabledIs none g = Unit
EnabledIs (some w) g = g ≡ some (record { enabled = w })

-- Each environment that the user switched is reported with that switch.
abbrev pub EnvironmentsMatch :
    List (String × FeatureEnvironment) → List (String × ApiEnvironment) → Type 0
EnvironmentsMatch want got = All (λ e. EnabledIs e.1.enabled (lookup e.0 got)) want

module _ {Float : Type 0} ⦃N : FloatOps Float⦄ where
  abbrev pub CoverageIs : Option Float → Option Float → Type 0
  CoverageIs none g = ⊥
  CoverageIs (some f) none = ⊥
  CoverageIs (some f) (some g) = float_eq f g ≡ true

  -- Both unset, or both set and the desired decimal denotes the observed number.
  abbrev pub CoverageMatches : Option String → Option Float → Type 0
  CoverageMatches none none = Unit
  CoverageMatches none (some g) = ⊥
  CoverageMatches (some w) g = CoverageIs (parse_float w) g

  -- An observed rule is what a desired rule asks for. The description is not compared.
  pub record RuleMatches (w : FeatureRule) (g : ApiRule Float) : Type 0 where
    pub type : w.type ≡ g.type
    pub id : Agrees w.id g.id
    pub enabled : enabled_or_true w.enabled ≡ enabled_or_true g.enabled
    pub condition : deref_string w.condition ≡ g.condition
    pub saved_groups : Pointwise GroupMatches (elems w.saved_groups) (elems g.saved_groups)
    pub scope :
        ScopeMatches
          (deref_bool w.all_environments)
          w.environments
          g.all_environments
          g.environments
    pub value : deref_string w.value ≡ g.value
    pub hash_attribute : deref_string w.hash_attribute ≡ g.hash_attribute
    pub experiment_id : deref_string w.experiment_id ≡ g.experiment_id
    pub coverage : CoverageMatches w.coverage g.coverage
    pub variations : VariationsMatch (elems w.variations) (elems g.variations)

  -- Rules left nil are unmanaged; others are compared in order.
  abbrev pub RulesMatch : Option (List FeatureRule) → Option (List (ApiRule Float)) → Type 0
  RulesMatch none got = Unit
  RulesMatch (some want) got = Pointwise RuleMatches want (elems got)

  pub record FeatureMatches (p : FeatureParameters) (ext : ApiFeature Float) : Type 0 where
    pub value_type : p.value_type ≡ ext.value_type
    pub default_value : p.default_value ≡ ext.default_value
    pub description : Agrees p.description ext.description
    pub project : Agrees p.project ext.project
    pub archived : Agrees p.archived ext.archived
    pub owner : Agrees p.owner ext.owner
    pub tags : AgreesAsSet p.tags ext.tags
    pub environments : EnvironmentsMatch (elems p.environments) (elems ext.environments)
    pub rules : RulesMatch p.rules ext.rules
