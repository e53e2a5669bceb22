-- ===== src/Growthbook/Json/RoundTrip.antt =====
-- Requests of internal/clients/growthbook, read back from their JSON.
use provider_growthbook.Base.{
  String, Bool, Option, none, some, List, [], ◌∷◌, map, ◌≡◌, refl, sym, ap, ◌==◌, string_eq, ==→≡,
  Bool-cases, inl, inr,
}
use provider_growthbook.Growthbook.Feature.{
  FeatureRule, FeatureSavedGroupTargeting, FeatureRuleVariation, FeatureEnvironmentRequest,
  FeatureRequest,
}
use provider_growthbook.Growthbook.Json.{
  Json, bool, text, number, items, slice, entries, saved_group_json, variation_json, rule_json,
  environment_switch_json, feature_fields,
}
use provider_growthbook.Growthbook.Json.Laws.{
  text_member, pointer_member, slice_member, map_member, members, feature_fields-members,
}
use provider_growthbook.Growthbook.Json.Read.{
  as_text, as_bool, as_number, read_text, read_pointer, read_items, read_slice, read_entries,
  read_map, read_saved_group, read_variation, read_rule, read_environment, read_request,
}

-- A slice or a map that `omitempty` leaves out is nil when it is read back.
abbrev pub nil_if_empty : {A : Type 0} → Option (List A) → Option (List A)
nil_if_empty none = none
nil_if_empty (some []) = none
nil_if_empty (some (a ∷ xs)) = some (a ∷ xs)

module _ (Float : Type 0) where
  read_text-text_member : (s : String) → read_text {Float = Float} (text_member s) ≡ some s
  read_text-text_member s = elim (Bool-cases (s == "")) [
    | inl empty ↦ rw empty (ap {B = Option String} some (sym (==→≡ s "" empty)))
    | inr full ↦ rw full refl
  ]

  read_pointer-text :
      (o : Option String) → read_pointer {Float = Float} as_text (pointer_member text o) ≡ some o
  read_pointer-text none = refl
  read_pointer-text (some s) = refl

  read_pointer-bool :
      (o : Option Bool) → read_pointer {Float = Float} as_bool (pointer_member bool o) ≡ some o
  read_pointer-bool none = refl
  read_pointer-bool (some b) = refl

  read_pointer-number :
      (o : Option Float) → read_pointer as_number (pointer_member number o) ≡ some o
  read_pointer-number none = refl
  read_pointer-number (some x) = refl

module _ {Float A : Type 0} (f : Json Float → Option A) (g : A → Json Float)
    (inverse : (a : A) → f (g a) ≡ some a) where
  read_items-items : (xs : List A) → read_items f (items g xs) ≡ some xs
  unfolding read_items
  read_items-items [] = refl
  read_items-items (a ∷ xs) = rw (inverse a, read_items-items xs) refl

  read_entries-entries : (m : List (String × A)) → read_entries f (entries g m) ≡ some m
  unfolding read_entries
  read_entries-entries [] = refl
  read_entries-entries ((k, a) ∷ m) = rw (inverse a, read_entries-entries m) refl

  read_slice-slice : (o : Option (List A)) → read_slice f (some (slice g o)) ≡ some o
  read_slice-slice none = refl
  read_slice-slice (some xs) = rw (read_items-items xs) refl

  read_slice-slice_member :
      (o : Option (List A)) → read_slice f (slice_member g o) ≡ some (nil_if_empty o)
  read_slice-slice_member none = refl
  read_slice-slice_member (some []) = refl
  read_slice-slice_member (some (a ∷ xs)) = rw (read_items-items (a ∷ xs)) refl

  read_map-map_member :
      (o : Option (List (String × A))) → read_map f (map_member g o) ≡ some (nil_if_empty o)
  read_map-map_member none = refl
  read_map-map_member (some []) = refl
  read_map-map_member (some (e ∷ m)) = rw (read_entries-entries (e ∷ m)) refl

module _ (Float : Type 0) where
  text_slice :
      (o : Option (List String))
      → read_slice {Float = Float} as_text (slice_member text o) ≡ some (nil_if_empty o)
  text_slice = read_slice-slice_member as_text text (λ s. refl)

  saved_group_back :
      (g : FeatureSavedGroupTargeting)
      → read_saved_group {Float = Float} (saved_group_json g) ≡ some g
  unfolding read_saved_group saved_group_json
  saved_group_back g =
      simp (members, read_slice-slice {Float = Float} as_text text (λ s. refl) g.ids)

  variation_back :
      (v : FeatureRuleVariation) → read_variation {Float = Float} (variation_json v) ≡ some v
  unfolding read_variation variation_json
  variation_back v = simp (members, read_text-text_member Float v.variation_id)

  environment_back :
      (e : FeatureEnvironmentRequest)
      → read_environment {Float = Float} (environment_switch_json e) ≡ some e
  unfolding read_environment environment_switch_json
  environment_back e = simp (members, read_pointer-bool Float e.enabled)

-- A rule, and a request, as they are read back: what `omitempty` leaves out is nil, and so is a pointer
-- to a nil list of rules, which is sent as null.
abbrev pub rule_read : {Float : Type 0} → FeatureRule Float → FeatureRule Float
rule_read r = record r {
  saved_groups = nil_if_empty r.saved_groups;
  environments = nil_if_empty r.environments;
  variations = nil_if_empty r.variations;
}

abbrev pub rules_read :
    {Float : Type 0}
    → Option (Option (List (FeatureRule Float)))
    → Option (Option (List (FeatureRule Float)))
rules_read none = none
rules_read (some none) = none
rules_read (some (some rs)) = some (some (map rule_read rs))

abbrev pub request_read : {Float : Type 0} → FeatureRequest Float → FeatureRequest Float
request_read req = record req {
  tags = nil_if_empty req.tags;
  environments = nil_if_empty req.environments;
  rules = rules_read req.rules;
}

module _ {Float : Type 0} where
  rule_back : (r : FeatureRule Float) → read_rule (rule_json r) ≡ some (rule_read r)
  unfolding read_rule rule_json
  rule_back r = simp (
    members,
    read_text-text_member Float r.id,
    read_text-text_member Float r.description,
    read_pointer-bool Float r.enabled,
    read_text-text_member Float r.condition,
    read_slice-slice_member read_saved_group saved_group_json (saved_group_back Float)
        r.saved_groups,
    text_slice Float r.environments,
    read_text-text_member Float r.value,
    read_pointer-number Float r.coverage,
    read_text-text_member Float r.hash_attribute,
    read_text-text_member Float r.experiment_id,
    read_slice-slice_member read_variation variation_json (variation_back Float) r.variations,
  )

  rules_items :
      (rs : List (FeatureRule Float))
      → read_items read_rule (items rule_json rs) ≡ some (map rule_read rs)
  unfolding read_items
  rules_items [] = refl
  rules_items (r ∷ rs) = rw (rule_back r, rules_items rs) refl

  rules_back :
      (o : Option (Option (List (FeatureRule Float))))
      → read_pointer (λ v. read_slice read_rule (some v)) (pointer_member (slice rule_json) o)
        ≡ some (rules_read o)
  rules_back none = refl
  rules_back (some none) = refl
  rules_back (some (some rs)) = rw (rules_items rs) refl

  -- The body of a feature request determines the request: read back by the struct tags that it was
  -- written by, it is the request, but for a slice or map that is empty, which is nil afterwards, and
  -- for rules that are a pointer to nil, which are nil afterwards.
  pub read_request-feature_fields :
      (req : FeatureRequest Float) → read_request (feature_fields req) ≡ some (request_read req)
  unfolding read_request
  read_request-feature_fields req =
      let (
        id, value_type, default_value, description, project, tags, archived, owner, environments,
        rules,
      ) =
        feature_fields-members req in
      rw
        (
          id,
          value_type,
          default_value,
          description,
          project,
          tags,
          archived,
          owner,
          environments,
          rules,
          read_text-text_member Float req.id,
          read_text-text_member Float req.value_type,
          read_text-text_member Float req.default_value,
          read_pointer-text Float req.description,
          read_pointer-text Float req.project,
          text_slice Float req.tags,
          read_pointer-bool Float req.archived,
          read_pointer-text Float req.owner,
          read_map-map_member read_environment environment_switch_json (environment_back Float)
              req.environments,
          rules_back req.rules,
        )
        refl
