-- ===== src/Feature/Steps.antt =====
-- The methods of internal/controller/feature/feature.go in any order, while others change the world:
-- what they may do to the resource.
use provider_growthbook.Base.{String, ◌≡◌, refl, sym, ◌∙◌, ap, subst, inl, inr, Bool-cases}
use provider_growthbook.Base.Float.{FloatOps}
use provider_growthbook.Apis.Feature.{Feature}
use provider_growthbook.Controller.Managed.{ExternalObservation, ConnectionDetails}
use provider_growthbook.Growthbook.Errors.{Result, ok, err, is_not_found}
use provider_growthbook.Growthbook.Feature.{Feature as ApiFeature, FeatureRequest}
use provider_growthbook.Feature.Convert.{create_request, update_request, late_initialize}
use provider_growthbook.Feature.LateInitialize.{late_initialize-IsLateInitialized}
use provider_growthbook.Feature.Filled.{
  IsFilled, IsFilled-self, IsFilled-trans, IsLateInitialized-IsFilled,
}
use provider_growthbook.Feature.External.{
  FeatureClient, observed, observe_result, observe, answered, created, create, updated, update,
  delete,
}

-- The resource as the four methods leave it, and a world that others have changed.
pub data Step {Float W : Type 0} ⦃N : FloatOps Float⦄ (client : FeatureClient Float W)
    (cr after : Feature) (w w' : W) : Type 0 where
  observes :
      (r : Result ExternalObservation)
      → observe client cr w ≡ (r, after, w')
      → Step client cr after w w'
  creates :
      (r : Result ConnectionDetails)
      → create client cr w ≡ (r, after, w')
      → Step client cr after w w'
  updates :
      (r : Result ConnectionDetails)
      → update client cr w ≡ (r, after, w')
      → Step client cr after w w'
  deletes :
      (r : Result (Unit {0}))
      → delete client cr w ≡ (r, w')
      → after ≡ cr
      → Step client cr after w w'
  elsewhere : after ≡ cr → Step client cr after w w'

pub data Reach {Float W : Type 0} ⦃N : FloatOps Float⦄ (client : FeatureClient Float W)
    (cr : Feature) (w : W) : Feature → W → Type 0 where
  here : Reach client cr w cr w
  next :
      {mid after : Feature} {u v : W}
      → Reach client cr w mid u
      → Step client mid after u v
      → Reach client cr w after v

pub record IsKept (cr after : Feature) : Type 0 where
  pub namespace : after.namespace ≡ cr.namespace
  pub config : after.provider_config_reference ≡ cr.provider_config_reference
  pub external_name : after.external_name ≡ cr.external_name
  pub init_provider : after.init_provider ≡ cr.init_provider
  pub for_provider : IsFilled cr.for_provider cr.init_provider after.for_provider

IsKept-self : (cr : Feature) → IsKept cr cr
IsKept-self cr = record {
  namespace = refl;
  config = refl;
  external_name = refl;
  init_provider = refl;
  for_provider = IsFilled-self cr.for_provider cr.init_provider;
}

IsKept-trans : (cr mid after : Feature) → IsKept cr mid → IsKept mid after → IsKept cr after
IsKept-trans cr mid after h k = record {
  namespace = k.namespace ∙ h.namespace;
  config = k.config ∙ h.config;
  external_name = k.external_name ∙ h.external_name;
  init_provider = k.init_provider ∙ h.init_provider;
  for_provider =
      IsFilled-trans cr.for_provider cr.init_provider mid.for_provider after.for_provider
        h.for_provider
        (subst (λ i. IsFilled mid.for_provider i after.for_provider) h.init_provider
          k.for_provider);
}

-- A method that leaves spec and metadata alone.
abbrev pub SpecAlone : Feature → Feature → Type 0
SpecAlone cr after =
    (after.namespace ≡ cr.namespace)
    × (after.provider_config_reference ≡ cr.provider_config_reference)
    × (after.external_name ≡ cr.external_name)
    × (after.init_provider ≡ cr.init_provider)
    × (after.for_provider ≡ cr.for_provider)

alone-IsKept : (cr after : Feature) → SpecAlone cr after → IsKept cr after
alone-IsKept cr after (ns, config, name, init, p) = record {
  namespace = ns;
  config = config;
  external_name = name;
  init_provider = init;
  for_provider =
      subst (IsFilled cr.for_provider cr.init_provider) (sym p)
        (IsFilled-self cr.for_provider cr.init_provider);
}

SpecAlone-self : (cr : Feature) → SpecAlone cr cr
SpecAlone-self cr = (refl, refl, refl, refl, refl)

module _ {Float W : Type 0} ⦃N : FloatOps Float⦄ (client : FeatureClient Float W) where
  answered_alone :
      (message : String) (cr : Feature) (r : Result (ApiFeature Float) × W)
      → SpecAlone cr (answered client message cr r).1
  answered_alone message cr (ok f, w) = (refl, refl, refl, refl, refl)
  answered_alone message cr (err e, w) = SpecAlone-self cr

  created_alone :
      (cr : Feature) (m : Result (FeatureRequest Float)) (w : W)
      → SpecAlone cr (created client cr m w).1
  created_alone cr (err e) w = SpecAlone-self cr
  created_alone cr (ok req) w =
      answered_alone "cannot create feature" cr (client.create_feature req w)

  updated_alone :
      (cr : Feature) (m : Result (FeatureRequest Float)) (w : W)
      → SpecAlone cr (updated client cr m w).1
  updated_alone cr (err e) w = SpecAlone-self cr
  updated_alone cr (ok req) w =
      answered_alone "cannot update feature" cr (client.update_feature cr.external_name req w)

  observed-IsKept : (cr : Feature) (f : ApiFeature Float) → IsKept cr (observed cr f).1
  observed-IsKept cr f =
      let p = cr.for_provider in
      let ip = cr.init_provider in
      let filled = late_initialize p ip f in
      record {
        namespace = refl;
        config = refl;
        external_name = refl;
        init_provider = refl;
        for_provider =
            IsLateInitialized-IsFilled Float p ip f filled.0 filled.1
              (late_initialize-IsLateInitialized p ip f);
      }

  observe_result-IsKept :
      (cr : Feature) (r : Result (ApiFeature Float) × W) → IsKept cr (observe_result client cr r).1
  observe_result-IsKept cr (ok f, w) = observed-IsKept cr f
  observe_result-IsKept cr (err e, w) = elim (Bool-cases (is_not_found e)) [
    | inl gone ↦ rw gone (IsKept-self cr)
    | inr other ↦ rw other (IsKept-self cr)
  ]

  Step-IsKept : (cr after : Feature) (w w' : W) → Step client cr after w w' → IsKept cr after
  unfolding observe create update
  Step-IsKept cr after w w' (observes r e) =
      subst (IsKept cr) (ap (λ t. t.1) e)
        (observe_result-IsKept cr (client.get_feature cr.external_name w))
  Step-IsKept cr after w w' (creates r e) = alone-IsKept cr after (
      subst (SpecAlone cr) (ap (λ t. t.1) e)
        (created_alone cr (create_request cr.external_name cr.for_provider cr.init_provider) w))
  Step-IsKept cr after w w' (updates r e) =
      alone-IsKept cr after (
        subst (SpecAlone cr) (ap (λ t. t.1) e)
          (updated_alone cr (update_request cr.for_provider) w))
  Step-IsKept cr after w w' (deletes r e same) = subst (IsKept cr) (sym same) (IsKept-self cr)
  Step-IsKept cr after w w' (elsewhere same) = subst (IsKept cr) (sym same) (IsKept-self cr)

  -- However Observe, Create, Update and Delete follow one another, whatever they return, and whatever
  -- others do to the world in between, the resource keeps its namespace, its provider config, its
  -- external name and its initProvider; description, owner and project stay as they are where
  -- forProvider or initProvider sets them; and every other field of forProvider stays as it is.
  pub Reach-IsKept :
      (cr : Feature) (w : W) (after : Feature) (w' : W)
      → Reach client cr w after w'
      → IsKept cr after
  Reach-IsKept cr w after w' here = IsKept-self cr
  Reach-IsKept cr w after w' (next {mid = mid} {u = u} run step) =
      IsKept-trans cr mid after (Reach-IsKept cr w mid u run) (Step-IsKept mid after u w' step)
