-- ===== src/Growthbook/Json/Laws.antt =====
-- Which members a request body has.
use provider_growthbook.Base.{
  String, Option, none, some, List, [], ◌∷◌, ◌≡◌, refl, arith, ◌==◌, string_eq, if◌then◌else◌,
}
use provider_growthbook.Growthbook.Feature.{FeatureRequest}
use provider_growthbook.Growthbook.Json.{
  Json, array, text, bool, object, entries, environment_switch_json, Fields, end, field,
  feature_fields, slice, rule_json, items, omit_text, omit_pointer, omit_slice, omit_map,
}

module _ {Float : Type 0} where
  -- The value of a member, `none` if the body has no such member.
  unfoldable pub member : String → Fields Float → Option (Json Float)
  member k end = none
  member k (field j v rest) = if j == k then some v else member k rest

  -- What `omitempty` leaves of a field, and the value of the member otherwise.
  abbrev pub text_member : String → Option (Json Float)
  text_member s = if s == "" then none else some (text s)

  abbrev pub pointer_member : {A : Type 0} → (A → Json Float) → Option A → Option (Json Float)
  pointer_member f none = none
  pointer_member f (some a) = some (f a)

  abbrev pub slice_member : {A : Type 0} → (A → Json Float) → Option (List A) → Option (Json Float)
  slice_member f none = none
  slice_member f (some []) = none
  slice_member f (some (a ∷ xs)) = some (array (items f (a ∷ xs)))

  abbrev pub map_member :
      {A : Type 0} → (A → Json Float) → Option (List (String × A)) → Option (Json Float)
  map_member f none = none
  map_member f (some []) = none
  map_member f (some (e ∷ m)) = some (object (entries f (e ∷ m)))

  abbrev pub first : Option (Json Float) → Option (Json Float) → Option (Json Float)
  first none v = v
  first (some v) _ = some v

  pub member-end : (k : String) → member k end ≡ none
  unfolding member
  member-end k = refl

  module _ (k j : String) (rest : Fields Float) where
    pub member-omit_text :
        (s : String)
        → member k (omit_text j s rest)
          ≡ (if j == k then first (text_member s) (member k rest) else member k rest)
    unfolding member omit_text
    member-omit_text s = ground arith

    pub member-omit_pointer :
        {A : Type 0} (f : A → Json Float) (o : Option A)
        → member k (omit_pointer f j o rest)
          ≡ (if j == k then first (pointer_member f o) (member k rest) else member k rest)
    unfolding member omit_pointer
    member-omit_pointer f none = ground arith
    member-omit_pointer f (some a) = refl

    pub member-omit_slice :
        {A : Type 0} (f : A → Json Float) (o : Option (List A))
        → member k (omit_slice f j o rest)
          ≡ (if j == k then first (slice_member f o) (member k rest) else member k rest)
    unfolding member omit_slice
    member-omit_slice f none = ground arith
    member-omit_slice f (some []) = ground arith
    member-omit_slice f (some (a ∷ xs)) = refl

    pub member-omit_map :
        {A : Type 0} (f : A → Json Float) (o : Option (List (String × A)))
        → member k (omit_map f j o rest)
          ≡ (if j == k then first (map_member f o) (member k rest) else member k rest)
    unfolding member omit_map
    member-omit_map f none = ground arith
    member-omit_map f (some []) = ground arith
    member-omit_map f (some (e ∷ m)) = refl

  pub first-none : (o : Option (Json Float)) → first o none ≡ o
  first-none none = refl
  first-none (some v) = refl

  pub member-field :
      (k j : String) (v : Json Float) (rest : Fields Float)
      → member k (field j v rest) ≡ (if j == k then some v else member k rest)
  unfolding member
  member-field k j v rest = refl

  pub ruleset members = (
    member-field, member-omit_text, member-omit_pointer, member-omit_slice, member-omit_map,
    member-end, first-none,
  )

  abbrev pub FeatureMembers : FeatureRequest Float → Type 0
  FeatureMembers req =
      (member "id" (feature_fields req) ≡ text_member req.id)
      × (member "valueType" (feature_fields req) ≡ text_member req.value_type)
      × (member "defaultValue" (feature_fields req) ≡ text_member req.default_value)
      × (member "description" (feature_fields req) ≡ pointer_member text req.description)
      × (member "project" (feature_fields req) ≡ pointer_member text req.project)
      × (member "tags" (feature_fields req) ≡ slice_member text req.tags)
      × (member "archived" (feature_fields req) ≡ pointer_member bool req.archived)
      × (member "owner" (feature_fields req) ≡ pointer_member text req.owner)
      × (member "environments" (feature_fields req)
          ≡ map_member environment_switch_json req.environments)
      × (member "rules" (feature_fields req) ≡ pointer_member (slice rule_json) req.rules)

  -- The body of a feature request has the members that its struct tags name: an empty text, a nil
  -- pointer, and an empty slice or map are left out. So rules left nil are left out, and an empty
  -- list of rules is sent as an empty array.
  pub feature_fields-members : (req : FeatureRequest Float) → FeatureMembers req
  unfolding feature_fields
  feature_fields-members req = (
    simp members,
    simp members,
    simp members,
    simp members,
    simp members,
    simp members,
    simp members,
    simp members,
    simp members,
    simp members,
  )
