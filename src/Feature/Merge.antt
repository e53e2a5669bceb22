-- ===== src/Feature/Merge.antt =====
-- The requests of internal/controller/feature/convert.go: what initProvider contributes, and when.
use provider_growthbook.Base.{String, Option, none, some, ◌≡◌, ◌≢◌, refl, arith, string_eq}
use provider_growthbook.Base.Float.{FloatOps}
use provider_growthbook.Apis.Feature.{FeatureParameters, FeatureInitParameters}
use provider_growthbook.Growthbook.Errors.{Result, ok, err, ◌>>=◌}
use provider_growthbook.Growthbook.Feature.{FeatureRequest}
use provider_growthbook.Feature.Convert.{
  fill, fill_text, merge_value_fields, merge_metadata_fields, merge_init_provider, update_request,
  create_request,
}
use text.Mathlib.TextEquality.{eq_iff}

-- A field that forProvider sets keeps its value; another takes that of initProvider, if any.
abbrev pub Filled {ℓ} : {A : Type ℓ} → Option A → Option A → Option A → Type ℓ
Filled (some a) init after = after ≡ some a
Filled none init after = after ≡ init

-- The same for a text, where an empty one counts as unset.
abbrev pub TextFilled : String → Option String → String → Type 0
TextFilled p none after = after ≡ p
TextFilled p (some i) after = (p ≢ "" → after ≡ p) × (p ≡ "" → after ≡ i)

pub Filled-fill {ℓ} : {A : Type ℓ} (p ip : Option A) → Filled p ip (fill p ip)
Filled-fill none ip = refl
Filled-fill (some a) ip = refl

pub TextFilled-fill_text : (p : String) (ip : Option String) → TextFilled p ip (fill_text p ip)
TextFilled-fill_text p none = refl
TextFilled-fill_text p (some i) = ground (arith, eq_iff p "")

pub record IsMerged (p : FeatureParameters) (ip : FeatureInitParameters) (after : FeatureParameters)
    : Type 0 where
  pub value_type : TextFilled p.value_type ip.value_type after.value_type
  pub default_value : TextFilled p.default_value ip.default_value after.default_value
  pub description : Filled p.description ip.description after.description
  pub project : Filled p.project ip.project after.project
  pub tags : Filled p.tags ip.tags after.tags
  pub archived : Filled p.archived ip.archived after.archived
  pub owner : Filled p.owner ip.owner after.owner
  pub environments : Filled p.environments ip.environments after.environments
  pub rules : Filled p.rules ip.rules after.rules

merge_init_provider-IsMerged :
    (p : FeatureParameters) (ip : FeatureInitParameters) → IsMerged p ip (merge_init_provider p ip)
unfolding merge_init_provider merge_value_fields merge_metadata_fields
merge_init_provider-IsMerged p ip = record {
  value_type = TextFilled-fill_text p.value_type ip.value_type;
  default_value = TextFilled-fill_text p.default_value ip.default_value;
  description = Filled-fill p.description ip.description;
  project = Filled-fill p.project ip.project;
  tags = Filled-fill p.tags ip.tags;
  archived = Filled-fill p.archived ip.archived;
  owner = Filled-fill p.owner ip.owner;
  environments = Filled-fill p.environments ip.environments;
  rules = Filled-fill p.rules ip.rules;
}

module _ {Float : Type 0} ⦃N : FloatOps Float⦄ where
  -- A create request and the update request of parameters that are merged field by field.
  abbrev pub CreateIs :
      String
      → FeatureParameters
      → Result (FeatureRequest Float)
      → Result (FeatureRequest Float)
      → Type 0
  CreateIs id merged (ok sent) created =
      created ≡ ok (record sent { id = id; value_type = merged.value_type })
  CreateIs id merged (err e) created = created ≡ err e

  CreateIs-bind :
      (id : String) (merged : FeatureParameters) (m : Result (FeatureRequest Float))
      → CreateIs id merged m
          (m >>= λ req. ok (record req { id = id; value_type = merged.value_type }))
  CreateIs-bind id merged (ok sent) = refl
  CreateIs-bind id merged (err e) = refl

module _ (Float : Type 0) ⦃N : FloatOps Float⦄ where
  -- Create sends what Update would send of the parameters in which each field that forProvider
  -- leaves unset has the value of initProvider, with the id and the value type added, and it fails
  -- with the same error; a field that forProvider sets is never overridden.
  pub create_request-IsMerged :
      (id : String) (p : FeatureParameters) (ip : FeatureInitParameters)
      → (merged : FeatureParameters) × IsMerged p ip merged
        × CreateIs id merged (update_request {Float = Float} merged) (create_request id p ip)
  unfolding create_request
  create_request-IsMerged id p ip = (
    merge_init_provider p ip,
    merge_init_provider-IsMerged p ip,
    CreateIs-bind id (merge_init_provider p ip)
        (update_request {Float = Float} (merge_init_provider p ip)),
  )
