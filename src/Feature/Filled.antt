-- ===== src/Feature/Filled.antt =====
-- Parameters of a Feature that late initialization has filled, of
-- internal/controller/feature/convert.go, any number of times.
use provider_growthbook.Base.{String, Bool, Option, none, some, ◌≡◌, refl, ◌∙◌, ap, arith}
use provider_growthbook.Apis.Feature.{FeatureParameters, FeatureInitParameters}
use provider_growthbook.Growthbook.Feature.{Feature as ApiFeature}
use provider_growthbook.Feature.LateInitialize.{FieldKept, TextKept, IsLateInitialized}

-- A field that the user set, in forProvider or in initProvider, is as it was.
abbrev pub Settled : Option String → Option String → Option String → Type 0
Settled (some a) init after = after ≡ some a
Settled none (some i) after = after ≡ none
Settled none none after = Unit

-- Parameters in which only description, owner and project may have been filled.
pub record IsFilled (p : FeatureParameters) (ip : FeatureInitParameters) (q : FeatureParameters)
    : Type 0 where
  pub description : Settled p.description ip.description q.description
  pub owner : Settled p.owner ip.owner q.owner
  pub project : Settled p.project ip.project q.project
  pub others : q ≡ record p { description = q.description; owner = q.owner; project = q.project }

Settled-self : (a init : Option String) → Settled a init a
Settled-self none none = tt
Settled-self none (some i) = refl
Settled-self (some a) init = refl

Settled-FieldKept :
    (a init b c : Option String) (v : String)
    → Settled a init b
    → FieldKept b init v c
    → Settled a init c
Settled-FieldKept none none b c v h k = tt
Settled-FieldKept none (some i) none c v h k = k
Settled-FieldKept none (some i) (some x) c v h k = ground arith
Settled-FieldKept (some a) init none c v h k = ground arith
Settled-FieldKept (some a) init (some x) c v h k = k ∙ h

Settled-TextKept :
    (a init b c : Option String) (v : String)
    → Settled a init b
    → TextKept b init v c
    → Settled a init c
Settled-TextKept none none b c v h k = tt
Settled-TextKept none (some i) none c v h k = k
Settled-TextKept none (some i) (some x) c v h k = ground arith
Settled-TextKept (some a) init none c v h k = ground arith
Settled-TextKept (some a) init (some x) c v h k = k ∙ h

Settled-trans :
    (a init b c : Option String) → Settled a init b → Settled b init c → Settled a init c
Settled-trans none none b c h k = tt
Settled-trans none (some i) none c h k = k
Settled-trans none (some i) (some x) c h k = ground arith
Settled-trans (some a) init none c h k = ground arith
Settled-trans (some a) init (some x) c h k = k ∙ h

pub IsFilled-self : (p : FeatureParameters) (ip : FeatureInitParameters) → IsFilled p ip p
IsFilled-self p ip = record {
  description = Settled-self p.description ip.description;
  owner = Settled-self p.owner ip.owner;
  project = Settled-self p.project ip.project;
  others = refl;
}

pub IsFilled-trans :
    (p : FeatureParameters) (ip : FeatureInitParameters) (q r : FeatureParameters)
    → IsFilled p ip q
    → IsFilled q ip r
    → IsFilled p ip r
IsFilled-trans p ip q r h k = record {
  description =
      Settled-trans p.description ip.description q.description r.description h.description
        k.description;
  owner = Settled-trans p.owner ip.owner q.owner r.owner h.owner k.owner;
  project = Settled-trans p.project ip.project q.project r.project h.project k.project;
  others =
      k.others
      ∙ ap {A = FeatureParameters} {B = FeatureParameters}
          (λ t. record t { description = r.description; owner = r.owner; project = r.project })
          h.others;
}

pub IsLateInitialized-IsFilled :
    (Float : Type 0) (p : FeatureParameters) (ip : FeatureInitParameters) (f : ApiFeature Float)
    (q : FeatureParameters) (changed : Bool)
    → IsLateInitialized Float p ip f q changed
    → IsFilled p ip q
IsLateInitialized-IsFilled Float p ip f q changed h = record {
  description =
      Settled-FieldKept p.description ip.description p.description q.description f.description
        (Settled-self p.description ip.description) h.description;
  owner =
      Settled-TextKept p.owner ip.owner p.owner q.owner f.owner (Settled-self p.owner ip.owner)
        h.owner;
  project =
      Settled-TextKept p.project ip.project p.project q.project f.project
        (Settled-self p.project ip.project) h.project;
  others = h.others;
}
