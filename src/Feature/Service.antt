-- ===== src/Feature/Service.antt =====
-- What GrowthBook documents of POST /v2/features/{id}, over the request of feature.go: a field that
-- the JSON body omits (an empty text, a nil pointer, an empty slice or map) is left as it is, any
-- other is stored, and the rules are replaced as a whole. The service may fill in what a stored rule
-- leaves open (its id, its switch) and may reorder what it treats as a set.
use mathlib.Core.List.{Perm}
use provider_growthbook.Base.{String, Bool, Option, none, some, List, [], ◌∷◌, ◌≡◌, ◌≢◌}
use provider_growthbook.Base.Lists.{elems, All, Pointwise, lookup}
use provider_growthbook.Growthbook.Feature.{
  Feature, FeatureRule, FeatureSavedGroupTargeting, FeatureEnvironment, FeatureEnvironmentRequest,
  FeatureRequest,
}
use provider_growthbook.Feature.RulesConvert.{enabled_or_true}

abbrev pub TextPatched : String → String → String → Type 0
TextPatched sent old new = (sent ≡ "" → new ≡ old) × (sent ≢ "" → new ≡ sent)

abbrev pub FieldPatched : {A : Type 0} → Option A → A → A → Type 0
FieldPatched none old new = new ≡ old
FieldPatched (some v) old new = new ≡ v

abbrev pub SetPatched : Option (List String) → Option (List String) → Option (List String) → Type 0
SetPatched none old new = new ≡ old
SetPatched (some []) old new = new ≡ old
SetPatched (some (x ∷ xs)) old new = Perm (x ∷ xs) (elems new)

abbrev pub SwitchPatched : Option Bool → Option FeatureEnvironment → Type 0
SwitchPatched none new = Unit
SwitchPatched (some b) new = new ≡ some (record { enabled = b })

abbrev pub EnvironmentsPatched :
    List (String × FeatureEnvironmentRequest) → List (String × FeatureEnvironment) → Type 0
EnvironmentsPatched sent new = All (λ e. SwitchPatched e.1.enabled (lookup e.0 new)) sent

abbrev pub GroupStored : FeatureSavedGroupTargeting → FeatureSavedGroupTargeting → Type 0
GroupStored sent g = (sent.match ≡ g.match) × Perm (elems sent.ids) (elems g.ids)

module _ {Float : Type 0} where
  pub record RuleStored (sent g : FeatureRule Float) : Type 0 where
    pub type : sent.type ≡ g.type
    pub id : sent.id ≢ "" → sent.id ≡ g.id
    pub enabled : enabled_or_true sent.enabled ≡ enabled_or_true g.enabled
    pub condition : sent.condition ≡ g.condition
    pub saved_groups : Pointwise GroupStored (elems sent.saved_groups) (elems g.saved_groups)
    pub all_environments : sent.all_environments ≡ g.all_environments
    pub environments : Perm (elems sent.environments) (elems g.environments)
    pub value : sent.value ≡ g.value
    pub coverage : sent.coverage ≡ g.coverage
    pub hash_attribute : sent.hash_attribute ≡ g.hash_attribute
    pub experiment_id : sent.experiment_id ≡ g.experiment_id
    pub variations : Perm (elems sent.variations) (elems g.variations)

  abbrev pub RulesPatched :
      Option (Option (List (FeatureRule Float)))
      → Option (List (FeatureRule Float))
      → Option (List (FeatureRule Float))
      → Type 0
  RulesPatched none old new = new ≡ old
  RulesPatched (some sent) old new = Pointwise RuleStored (elems sent) (elems new)

  -- The feature `new` is what the service holds after the request has changed `old`.
  pub record IsPatched (req : FeatureRequest Float) (old new : Feature Float) : Type 0 where
    pub value_type : new.value_type ≡ old.value_type
    pub default_value : TextPatched req.default_value old.default_value new.default_value
    pub description : FieldPatched req.description old.description new.description
    pub project : FieldPatched req.project old.project new.project
    pub tags : SetPatched req.tags old.tags new.tags
    pub archived : FieldPatched req.archived old.archived new.archived
    pub owner : FieldPatched req.owner old.owner new.owner
    pub environments : EnvironmentsPatched (elems req.environments) (elems new.environments)
    pub rules : RulesPatched req.rules old.rules new.rules
