-- ===== src/Feature/LateInitialize.antt =====
-- `lateInitialize` of internal/controller/feature/convert.go.
use provider_growthbook.Base.{
  String, Bool, true, false, Option, none, some, ◌≡◌, ◌≢◌, refl, ◌↔◌, arith, ◌==◌, string_eq,
  if◌then◌else◌, ==_refl,
}
use provider_growthbook.Base.Float.{FloatOps}
use provider_growthbook.Apis.Feature.{FeatureParameters, FeatureInitParameters}
use provider_growthbook.Growthbook.Feature.{Feature as ApiFeature}
use provider_growthbook.Feature.Convert.{
  late_initialize, late_init_ptr, late_init_text, text_differs, is_up_to_date, value_up_to_date,
  metadata_up_to_date, ownership_up_to_date,
}

-- What late initialization does to one field: a field set in forProvider or in initProvider keeps
-- its value, and one set in neither holds the observed value afterwards.
abbrev pub FieldKept : Option String → Option String → String → Option String → Type 0
FieldKept (some a) init v after = after ≡ some a
FieldKept none (some i) v after = after ≡ none
FieldKept none none v after = after ≡ some v

-- The same for a field that an empty observed value leaves unset.
abbrev pub TextKept : Option String → Option String → String → Option String → Type 0
TextKept (some a) init v after = after ≡ some a
TextKept none (some i) v after = after ≡ none
TextKept none none v after = after ≡ (if v == "" then none else some v)

pub text_differs_ptr :
    (dst init : Option String) (v : String)
    → text_differs (late_init_ptr dst init v).0 v ≡ text_differs dst v
text_differs_ptr (some a) init v = refl
text_differs_ptr none (some i) v = refl
text_differs_ptr none none v = rw (==_refl v)

text_differs_text :
    (dst init : Option String) (v : String)
    → text_differs (late_init_text dst init v).0 v ≡ text_differs dst v
text_differs_text dst init v = ground (arith, text_differs_ptr dst init v)

pub late_init_ptr_idem :
    (dst init : Option String) (v : String)
    → late_init_ptr (late_init_ptr dst init v).0 init v ≡ ((late_init_ptr dst init v).0, false)
late_init_ptr_idem (some a) init v = refl
late_init_ptr_idem none (some i) v = refl
late_init_ptr_idem none none v = refl

pub late_init_text_idem :
    (dst init : Option String) (v : String)
    → late_init_text (late_init_text dst init v).0 init v ≡ ((late_init_text dst init v).0, false)
late_init_text_idem dst init v = ground (arith, late_init_ptr_idem dst init v)

module _ {Float : Type 0} ⦃N : FloatOps Float⦄ where
  -- Late initialization neither causes drift nor hides it: the filled parameters are up to date with
  -- the feature that they were filled from exactly when the given ones are.
  pub is_up_to_date-late_initialize :
      (p : FeatureParameters) (ip : FeatureInitParameters) (ext : ApiFeature Float)
      → is_up_to_date (late_initialize p ip ext).0 ext ≡ is_up_to_date p ext
  unfolding is_up_to_date late_initialize value_up_to_date metadata_up_to_date ownership_up_to_date
  is_up_to_date-late_initialize p ip ext = rw (
    text_differs_ptr p.description ip.description ext.description,
    text_differs_text p.owner ip.owner ext.owner,
    text_differs_text p.project ip.project ext.project,
  )

module _ {Float : Type 0} where
  -- A second late initialization from the same feature writes nothing and reports no change.
  pub late_initialize_idempotent :
      (p : FeatureParameters) (ip : FeatureInitParameters) (ext : ApiFeature Float)
      → late_initialize (late_initialize p ip ext).0 ip ext ≡ ((late_initialize p ip ext).0, false)
  unfolding late_initialize
  late_initialize_idempotent p ip ext = ground (
    arith,
    late_init_ptr_idem p.description ip.description ext.description,
    late_init_text_idem p.owner ip.owner ext.owner,
    late_init_text_idem p.project ip.project ext.project,
  )

-- The parameters after late initialization, and whether it reports a change.
pub record IsLateInitialized (Float : Type 0) (p : FeatureParameters) (ip : FeatureInitParameters)
    (ext : ApiFeature Float) (after : FeatureParameters) (changed : Bool) : Type 0 where
  pub description : FieldKept p.description ip.description ext.description after.description
  pub owner : TextKept p.owner ip.owner ext.owner after.owner
  pub project : TextKept p.project ip.project ext.project after.project
  pub others :
      after
      ≡ record p { description = after.description; owner = after.owner; project = after.project }
  pub reports : (changed ≡ true) ↔ (after ≢ p)

FieldKept-ptr :
    (dst init : Option String) (v : String) → FieldKept dst init v (late_init_ptr dst init v).0
FieldKept-ptr (some a) init v = refl
FieldKept-ptr none (some i) v = refl
FieldKept-ptr none none v = refl

TextKept-text :
    (dst init : Option String) (v : String) → TextKept dst init v (late_init_text dst init v).0
TextKept-text (some a) init v = ground arith
TextKept-text none (some i) v = ground arith
TextKept-text none none v = ground arith

ptr_wrote :
    (dst init : Option String) (v : String)
    → ((late_init_ptr dst init v).1 ≡ true) ↔ ((late_init_ptr dst init v).0 ≢ dst)
ptr_wrote (some a) init v = ground arith
ptr_wrote none (some i) v = ground arith
ptr_wrote none none v = ground arith

text_wrote :
    (dst init : Option String) (v : String)
    → ((late_init_text dst init v).1 ≡ true) ↔ ((late_init_text dst init v).0 ≢ dst)
text_wrote dst init v = ground (arith, ptr_wrote dst init v)

module _ {Float : Type 0} where
  late_initialize_reports :
      (p : FeatureParameters) (ip : FeatureInitParameters) (ext : ApiFeature Float)
      → ((late_initialize p ip ext).1 ≡ true) ↔ ((late_initialize p ip ext).0 ≢ p)
  unfolding late_initialize
  late_initialize_reports p ip ext = ground (
    arith,
    ptr_wrote p.description ip.description ext.description,
    text_wrote p.owner ip.owner ext.owner,
    text_wrote p.project ip.project ext.project,
  )

  -- Late initialization fills description, owner and project where forProvider and initProvider
  -- leave them unset, owner and project only from an observed text that is not empty; it keeps every
  -- other field and every field that either of the two sets, and it reports a change exactly when
  -- the parameters differ from the given ones.
  pub late_initialize-IsLateInitialized :
      (p : FeatureParameters) (ip : FeatureInitParameters) (ext : ApiFeature Float)
      → IsLateInitialized Float p ip ext (late_initialize p ip ext).0 (late_initialize p ip ext).1
  unfolding late_initialize
  late_initialize-IsLateInitialized p ip ext = record {
    description = FieldKept-ptr p.description ip.description ext.description;
    owner = TextKept-text p.owner ip.owner ext.owner;
    project = TextKept-text p.project ip.project ext.project;
    others = refl;
    reports = late_initialize_reports p ip ext;
  }
