-- ===== src/Growthbook/Json.antt =====
-- The JSON bodies that the client sends: what `encoding/json` makes of the struct tags of the request
-- types. Coverage and the thresholds are JSON numbers; the members of a map stand in the order of
-- its entries.
pub mod Laws
pub mod Read
pub mod RoundTrip
use provider_growthbook.Base.{
  String, Bool, true, false, Option, none, some, List, [], ◌∷◌, ◌==◌, string_eq, if◌then◌else◌,
}
use provider_growthbook.Growthbook.Feature.{
  FeatureRequest, FeatureRule, FeatureSavedGroupTargeting, FeatureRuleVariation,
  FeatureEnvironmentRequest,
}
use provider_growthbook.Growthbook.Environment.{EnvironmentRequest}
use provider_growthbook.Growthbook.Project.{ProjectRequest, ProjectSettings}

mutual
  pub data Json (Float : Type 0) : Type 0 where
    null : Json Float
    bool : Bool → Json Float
    text : String → Json Float
    number : Float → Json Float
    array : Items Float → Json Float
    object : Fields Float → Json Float

  pub data Items (Float : Type 0) : Type 0 where
    nil : Items Float
    cons : Json Float → Items Float → Items Float

  pub data Fields (Float : Type 0) : Type 0 where
    end : Fields Float
    field : String → Json Float → Fields Float → Fields Float

module _ {Float : Type 0} where
  abbrev pub items : {A : Type 0} → (A → Json Float) → List A → Items Float
  items f [] = nil
  items f (a ∷ xs) = cons (f a) (items f xs)

  -- A slice without `omitempty`: a nil one is null.
  abbrev pub slice : {A : Type 0} → (A → Json Float) → Option (List A) → Json Float
  slice f none = null
  slice f (some xs) = array (items f xs)

  -- The members under `omitempty`.
  unfoldable pub omit_text : String → String → Fields Float → Fields Float
  omit_text k s rest = if s == "" then rest else field k (text s) rest

  unfoldable pub omit_pointer :
      {A : Type 0} → (A → Json Float) → String → Option A → Fields Float → Fields Float
  omit_pointer f k none rest = rest
  omit_pointer f k (some a) rest = field k (f a) rest

  unfoldable pub omit_slice :
      {A : Type 0} → (A → Json Float) → String → Option (List A) → Fields Float → Fields Float
  omit_slice f k none rest = rest
  omit_slice f k (some []) rest = rest
  omit_slice f k (some (a ∷ xs)) rest = field k (array (items f (a ∷ xs))) rest

  abbrev pub entries : {A : Type 0} → (A → Json Float) → List (String × A) → Fields Float
  entries f [] = end
  entries f ((k, a) ∷ m) = field k (f a) (entries f m)

  unfoldable pub omit_map :
      {A : Type 0}
      → (A → Json Float)
      → String
      → Option (List (String × A))
      → Fields Float
      → Fields Float
  omit_map f k none rest = rest
  omit_map f k (some []) rest = rest
  omit_map f k (some (e ∷ m)) rest = field k (object (entries f (e ∷ m))) rest

  unfoldable pub saved_group_json : FeatureSavedGroupTargeting → Json Float
  saved_group_json g = object (field "match" (text g.match) (field "ids" (slice text g.ids) end))

  unfoldable pub variation_json : FeatureRuleVariation → Json Float
  variation_json v =
      object (omit_text "variationId" v.variation_id (field "value" (text v.value) end))

  unfoldable pub rule_json : FeatureRule Float → Json Float
  rule_json r = object (
      field "type" (text r.type) (
        omit_text "id" r.id (
          omit_text "description" r.description (
            omit_pointer bool "enabled" r.enabled (
              omit_text "condition" r.condition (
                omit_slice saved_group_json "savedGroups" r.saved_groups (
                  field "allEnvironments" (bool r.all_environments) (
                    omit_slice text "environments" r.environments (
                      omit_text "value" r.value (
                        omit_pointer number "coverage" r.coverage (
                          omit_text "hashAttribute" r.hash_attribute (
                            omit_text "experimentId" r.experiment_id
                              (omit_slice variation_json "variations" r.variations end)))))))))))))

  unfoldable pub environment_switch_json : FeatureEnvironmentRequest → Json Float
  environment_switch_json e = object (omit_pointer bool "enabled" e.enabled end)

  unfoldable pub feature_fields : FeatureRequest Float → Fields Float
  feature_fields req = omit_text "id" req.id (
      omit_text "valueType" req.value_type (
        omit_text "defaultValue" req.default_value (
          omit_pointer text "description" req.description (
            omit_pointer text "project" req.project (
              omit_slice text "tags" req.tags (
                omit_pointer bool "archived" req.archived (
                  omit_pointer text "owner" req.owner (
                    omit_map environment_switch_json "environments" req.environments
                      (omit_pointer (slice rule_json) "rules" req.rules end)))))))))

  unfoldable pub environment_fields : EnvironmentRequest → Fields Float
  environment_fields req = omit_text "id" req.id (
      omit_pointer text "description" req.description (
        omit_pointer bool "toggleOnList" req.toggle_on_list (
          omit_pointer bool "defaultState" req.default_state
            (omit_slice text "projects" req.projects (omit_pointer text "parent" req.parent end)))))

  unfoldable pub settings_json : ProjectSettings Float → Json Float
  settings_json s = object (
      omit_pointer text "statsEngine" s.stats_engine (
        omit_pointer number "confidenceLevel" s.confidence_level
          (omit_pointer number "pValueThreshold" s.p_value_threshold end)))

  unfoldable pub project_fields : ProjectRequest Float → Fields Float
  project_fields req = omit_text "name" req.name (
      omit_pointer text "description" req.description (
        omit_pointer text "publicId" req.public_id (
          omit_pointer bool "restrictAccess" req.restrict_access
            (omit_pointer settings_json "settings" req.settings end))))
