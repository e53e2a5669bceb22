-- ===== src/Feature/Convert.antt =====
-- internal/controller/feature/convert.go. A function that writes through pointers returns the new
-- parameters.
use mathlib.Core.Int.{ℤ}
use mathlib.Core.Nat.{zero}
use provider_growthbook.Base.{
  String, Bool, true, false, not, ◌&&◌, ◌||◌, Option, none, some, List, [], ◌∷◌, ◌==◌, ◌!=◌,
  string_eq, bool_eq, if◌then◌else◌, map,
}
use provider_growthbook.Base.Lists.{elems, lookup}
use provider_growthbook.Base.Float.{FloatOps}
use provider_growthbook.Apis.Feature.{
  FeatureParameters, FeatureInitParameters, FeatureObservation, FeatureRevisionObservation,
  FeatureEnvironment, FeatureEnvironmentObservation,
}
use provider_growthbook.Growthbook.Errors.{Result, ok, ◌>>=◌}
use provider_growthbook.Growthbook.Feature.{
  Feature as ApiFeature, FeatureEnvironment as ApiEnvironment, FeatureEnvironmentRequest,
  FeatureRequest, FeatureRevision, FeatureRule as ApiRule,
}
use provider_growthbook.Feature.SameSet.{same_set}
use provider_growthbook.Feature.RulesConvert.{rules_request, rules_observation}
use provider_growthbook.Feature.RulesDrift.{rules_up_to_date}

-- `if p.X == "" && ip.X != nil { p.X = *ip.X }`
abbrev pub fill_text : String → Option String → String
fill_text p none = p
fill_text p (some ip) = if p == "" then ip else p

-- `if p.X == nil { p.X = ip.X }`
abbrev pub fill {ℓ} : {A : Type ℓ} → Option A → Option A → Option A
fill none ip = ip
fill (some a) ip = some a

unfoldable pub merge_value_fields : FeatureParameters → FeatureInitParameters → FeatureParameters
merge_value_fields p ip = record p {
  value_type = fill_text p.value_type ip.value_type;
  default_value = fill_text p.default_value ip.default_value;
}

unfoldable pub merge_metadata_fields : FeatureParameters → FeatureInitParameters → FeatureParameters
merge_metadata_fields p ip = record p {
  description = fill p.description ip.description;
  project = fill p.project ip.project;
  tags = fill p.tags ip.tags;
  archived = fill p.archived ip.archived;
  owner = fill p.owner ip.owner;
  environments = fill p.environments ip.environments;
  rules = fill p.rules ip.rules;
}

unfoldable pub merge_init_provider : FeatureParameters → FeatureInitParameters → FeatureParameters
unfolding merge_value_fields merge_metadata_fields
merge_init_provider p ip = merge_metadata_fields (merge_value_fields p ip) ip

abbrev pub environment_request : String × FeatureEnvironment → String × FeatureEnvironmentRequest
environment_request (k, v) = (k, record { enabled = v.enabled })

unfoldable pub environments_request :
    Option (List (String × FeatureEnvironment)) → Option (List (String × FeatureEnvironmentRequest))
environments_request none = none
environments_request (some envs) = some (map environment_request envs)

abbrev environment_observation : String × ApiEnvironment → String × FeatureEnvironmentObservation
environment_observation (k, v) = (k, record { enabled = v.enabled })

abbrev environments_observation :
    Option (List (String × ApiEnvironment)) → Option (List (String × FeatureEnvironmentObservation))
environments_observation none = none
environments_observation (some envs) = some (map environment_observation envs)

-- The zero value of the field where the API reports no revision.
abbrev revision_observation : Option FeatureRevision → FeatureRevisionObservation
revision_observation none = record { version = ℤ.pos zero }
revision_observation (some r) = record { version = r.version }

module _ {Float : Type 0} where
  unfoldable pub observation : ApiFeature Float → FeatureObservation
  unfolding rules_observation
  observation f = record {
    id = f.id;
    date_created = f.date_created;
    date_updated = f.date_updated;
    revision = revision_observation f.revision;
    environments = environments_observation f.environments;
    rules = rules_observation f.rules;
  }

-- `lateInitPtr`: the new value of the field, and whether it was written.
abbrev pub late_init_ptr {ℓ} : {A : Type ℓ} → Option A → Option A → A → Option A × Bool
late_init_ptr (some a) init v = (some a, false)
late_init_ptr none (some i) v = (none, false)
late_init_ptr none none v = (some v, true)

-- The same under `if v != ""`.
abbrev pub late_init_text : Option String → Option String → String → Option String × Bool
late_init_text dst init v = if v != "" then late_init_ptr dst init v else (dst, false)

module _ {Float : Type 0} where
  unfoldable pub late_initialize :
      FeatureParameters → FeatureInitParameters → ApiFeature Float → FeatureParameters × Bool
  late_initialize p ip ext =
      let (description, wrote_description) =
        late_init_ptr p.description ip.description ext.description in
      let (owner, wrote_owner) = late_init_text p.owner ip.owner ext.owner in
      let (project, wrote_project) = late_init_text p.project ip.project ext.project in
      (
        record p { description = description; owner = owner; project = project },
        wrote_project || (wrote_owner || wrote_description),
      )

-- `p.X != nil && *p.X != ext.X`
abbrev pub text_differs : Option String → String → Bool
text_differs none ext = false
text_differs (some p) ext = p != ext

abbrev pub flag_differs : Option Bool → Bool → Bool
flag_differs none ext = false
flag_differs (some p) ext = p != ext

-- `p.X != nil && !sameSet(p.X, ext.X)`
abbrev pub set_differs : Option (List String) → Option (List String) → Bool
set_differs none ext = false
set_differs (some p) ext = not (same_set (some p) ext)

abbrev pub enabled_is : Bool → Option ApiEnvironment → Bool
enabled_is w none = false
enabled_is w (some g) = g.enabled == w

-- One round of the loop of `environmentsUpToDate`: whether it goes on.
abbrev pub environment_up_to_date : Option Bool → Option ApiEnvironment → Bool
environment_up_to_date none g = true
environment_up_to_date (some w) g = enabled_is w g

unfoldable pub environments_loop :
    List (String × FeatureEnvironment) → List (String × ApiEnvironment) → Bool
environments_loop [] got = true
environments_loop ((k, w) ∷ want) got =
    if environment_up_to_date w.enabled (lookup k got) then environments_loop want got else false

unfoldable pub environments_up_to_date :
    Option (List (String × FeatureEnvironment)) → Option (List (String × ApiEnvironment)) → Bool
unfolding environments_loop
environments_up_to_date want got = environments_loop (elems want) (elems got)

module _ {Float : Type 0} where
  unfoldable pub value_up_to_date : FeatureParameters → ApiFeature Float → Bool
  value_up_to_date p ext = p.value_type == ext.value_type && p.default_value == ext.default_value

  unfoldable pub ownership_up_to_date : FeatureParameters → ApiFeature Float → Bool
  ownership_up_to_date p ext =
      if flag_differs p.archived ext.archived
      then false
      else if text_differs p.owner ext.owner
      then false
      else if set_differs p.tags ext.tags
      then false
      else true

  unfoldable pub metadata_up_to_date : FeatureParameters → ApiFeature Float → Bool
  metadata_up_to_date p ext =
      if text_differs p.description ext.description
      then false
      else if text_differs p.project ext.project
      then false
      else ownership_up_to_date p ext

module _ {Float : Type 0} ⦃N : FloatOps Float⦄ where
  -- The literal that `updateRequest` returns.
  abbrev pub update_body :
      FeatureParameters → Option (Option (List (ApiRule Float))) → FeatureRequest Float
  update_body p rules = record {
    id = "";
    value_type = "";
    default_value = p.default_value;
    description = p.description;
    project = p.project;
    tags = p.tags;
    archived = p.archived;
    owner = p.owner;
    environments = environments_request p.environments;
    rules = rules;
  }

  unfoldable pub update_request : FeatureParameters → Result (FeatureRequest Float)
  update_request p = do rules ← rules_request p.rules; ok (update_body p rules)

  unfoldable pub create_request :
      String → FeatureParameters → FeatureInitParameters → Result (FeatureRequest Float)
  create_request id p ip = do
    let merged = merge_init_provider p ip
    req ← update_request merged
    ok (record req { id = id; value_type = merged.value_type })

  unfoldable pub is_up_to_date : FeatureParameters → ApiFeature Float → Bool
  is_up_to_date p ext =
      value_up_to_date p ext
      && metadata_up_to_date p ext
      && environments_up_to_date p.environments ext.environments
      && rules_up_to_date p.rules ext.rules
