-- ===== src/Growthbook/Json/Read.antt =====
-- Reading a JSON body by the struct tags of internal/clients/growthbook: a member that is missing or
-- null leaves the zero value, and one of another shape is an error.
use provider_growthbook.Base.{String, Bool, Option, none, some, List, [], ◌∷◌, false}
use provider_growthbook.Growthbook.Feature.{
  FeatureRule, FeatureSavedGroupTargeting, FeatureRuleVariation, FeatureEnvironmentRequest,
  FeatureRequest,
}
use provider_growthbook.Growthbook.Json.{
  Json, null, bool, text, number, array, object, Items, nil, cons, Fields, end, field,
}
use provider_growthbook.Growthbook.Json.Laws.{member}

module _ {A B : Type 0} where
  infixl 5 ◌>>=◌
  abbrev pub ◌>>=◌ : Option A → (A → Option B) → Option B
  none >>= next = none
  some a >>= next = next a

-- What a member that is there is read as.
abbrev pub present : {A : Type 0} → Option A → Option (Option A)
present none = none
present (some a) = some (some a)

module _ {Float : Type 0} where
  abbrev pub as_text : Json Float → Option String
  as_text (text s) = some s
  as_text _ = none

  abbrev pub as_bool : Json Float → Option Bool
  as_bool (bool b) = some b
  as_bool _ = none

  abbrev pub as_number : Json Float → Option Float
  as_number (number x) = some x
  as_number _ = none

  abbrev pub as_fields : Json Float → Option (Fields Float)
  as_fields (object fs) = some fs
  as_fields _ = none

  -- A text, and a switch, that are no pointers.
  abbrev pub read_text : Option (Json Float) → Option String
  read_text none = some ""
  read_text (some null) = some ""
  read_text (some v) = as_text v

  abbrev pub read_switch : Option (Json Float) → Option Bool
  read_switch none = some false
  read_switch (some null) = some false
  read_switch (some v) = as_bool v

  module _ {A : Type 0} (f : Json Float → Option A) where
    abbrev pub read_pointer : Option (Json Float) → Option (Option A)
    read_pointer none = some none
    read_pointer (some null) = some none
    read_pointer (some v) = present (f v)

    unfoldable pub read_items : Items Float → Option (List A)
    read_items nil = some []
    read_items (cons v vs) = do a ← f v; rest ← read_items vs; some (a ∷ rest)

    abbrev pub as_list : Json Float → Option (List A)
    as_list (array vs) = read_items vs
    as_list _ = none

    abbrev pub read_slice : Option (Json Float) → Option (Option (List A))
    read_slice none = some none
    read_slice (some null) = some none
    read_slice (some v) = present (as_list v)

    unfoldable pub read_entries : Fields Float → Option (List (String × A))
    read_entries end = some []
    read_entries (field k v rest) = do a ← f v; more ← read_entries rest; some ((k, a) ∷ more)

    abbrev pub as_map : Json Float → Option (List (String × A))
    as_map (object fs) = read_entries fs
    as_map _ = none

    abbrev pub read_map : Option (Json Float) → Option (Option (List (String × A)))
    read_map none = some none
    read_map (some null) = some none
    read_map (some v) = present (as_map v)

  unfoldable pub read_saved_group : Json Float → Option FeatureSavedGroupTargeting
  unfolding read_items member
  read_saved_group v = do
    fs ← as_fields v
    match ← read_text (member "match" fs)
    ids ← read_slice as_text (member "ids" fs)
    some (record { match = match; ids = ids })

  unfoldable pub read_variation : Json Float → Option FeatureRuleVariation
  unfolding member
  read_variation v = do
    fs ← as_fields v
    variation_id ← read_text (member "variationId" fs)
    value ← read_text (member "value" fs)
    some (record { variation_id = variation_id; value = value })

  unfoldable pub read_rule : Json Float → Option (FeatureRule Float)
  unfolding member read_items read_saved_group read_variation
  read_rule v = do
    fs ← as_fields v
    type ← read_text (member "type" fs)
    id ← read_text (member "id" fs)
    description ← read_text (member "description" fs)
    enabled ← read_pointer as_bool (member "enabled" fs)
    condition ← read_text (member "condition" fs)
    saved_groups ← read_slice read_saved_group (member "savedGroups" fs)
    all_environments ← read_switch (member "allEnvironments" fs)
    environments ← read_slice as_text (member "environments" fs)
    value ← read_text (member "value" fs)
    coverage ← read_pointer as_number (member "coverage" fs)
    hash_attribute ← read_text (member "hashAttribute" fs)
    experiment_id ← read_text (member "experimentId" fs)
    variations ← read_slice read_variation (member "variations" fs)
    some (record {
      type = type;
      id = id;
      description = description;
      enabled = enabled;
      condition = condition;
      saved_groups = saved_groups;
      all_environments = all_environments;
      environments = environments;
      value = value;
      coverage = coverage;
      hash_attribute = hash_attribute;
      experiment_id = experiment_id;
      variations = variations;
    })

  unfoldable pub read_environment : Json Float → Option FeatureEnvironmentRequest
  unfolding member
  read_environment v = do
    fs ← as_fields v
    enabled ← read_pointer as_bool (member "enabled" fs)
    some (record { enabled = enabled })

  unfoldable pub read_request : Fields Float → Option (FeatureRequest Float)
  unfolding member read_items read_entries read_rule read_environment
  read_request fs = do
    id ← read_text (member "id" fs)
    value_type ← read_text (member "valueType" fs)
    default_value ← read_text (member "defaultValue" fs)
    description ← read_pointer as_text (member "description" fs)
    project ← read_pointer as_text (member "project" fs)
    tags ← read_slice as_text (member "tags" fs)
    archived ← read_pointer as_bool (member "archived" fs)
    owner ← read_pointer as_text (member "owner" fs)
    environments ← read_map read_environment (member "environments" fs)
    rules ← read_pointer (λ v. read_slice read_rule (some v)) (member "rules" fs)
    some (record {
      id = id;
      value_type = value_type;
      default_value = default_value;
      description = description;
      project = project;
      tags = tags;
      archived = archived;
      owner = owner;
      environments = environments;
      rules = rules;
    })
