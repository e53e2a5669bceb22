-- ===== src/Feature/Rounds.antt =====
-- Rounds of the reconciler over internal/controller/feature/feature.go: Observe finds drift, Update
-- corrects it.
use provider_growthbook.Base.{String, true, false, ℕ, suc, ◌≤◌, ◌≡◌, sym, ◌∙◌, ap, arith, subst}
use provider_growthbook.Base.Float.{FloatOps}
use provider_growthbook.Apis.Feature.{Feature, FeatureParameters, FeatureInitParameters}
use provider_growthbook.Controller.Managed.{ExternalObservation, ConnectionDetails}
use provider_growthbook.Growthbook.Errors.{Result, ok, err}
use provider_growthbook.Growthbook.Feature.{Feature as ApiFeature}
use provider_growthbook.Feature.Convert.{late_initialize}
use provider_growthbook.Feature.Reconcile.{CanConverge}
use provider_growthbook.Feature.Observing.{StoresUpdates, observe-update}
use provider_growthbook.Feature.External.{FeatureClient, observed, observe_result, observe, update}

module _ {Float : Type 0} ⦃N : FloatOps Float⦄ where
  filled-CanConverge :
      (p : FeatureParameters) (ip : FeatureInitParameters) (f : ApiFeature Float)
      → CanConverge p f
      → CanConverge (late_initialize p ip f).0 f
  unfolding late_initialize
  filled-CanConverge p ip f can = record {
    value_type = can.value_type;
    default_value = can.default_value;
    tags = can.tags;
    rules = can.rules;
  }

module _ {Float W : Type 0} ⦃N : FloatOps Float⦄ (client : FeatureClient Float W) where
  -- One read right after another answers the same.
  abbrev pub ReadsAgain : Type 0
  ReadsAgain =
      (id : String) (w : W)
      → (client.get_feature id (client.get_feature id w).1).0 ≡ (client.get_feature id w).0

  -- Observe finds the feature and reports it out of date, and Update then succeeds.
  abbrev pub Corrects : Feature → W → Feature → W → Type 0
  Corrects cr w after w' =
      (o : ExternalObservation) × ((mid : Feature) × ((u : W) × ((d : ConnectionDetails) × ((observe
                  client cr w
                ≡ (ok o, mid, u))
              × (o.resource_exists ≡ true)
              × (o.resource_up_to_date ≡ false)
              × (update client mid u ≡ (ok d, after, w'))))))

  abbrev pub Converges : Feature → W → Type 0
  Converges cr w =
      (old : ApiFeature Float)
      → (client.get_feature cr.external_name w).0 ≡ ok old
      → CanConverge cr.for_provider old

  found :
      (cr mid : Feature) (r : Result (ApiFeature Float) × W) (o : ExternalObservation) (u : W)
      → observe_result client cr r ≡ (ok o, mid, u)
      → o.resource_exists ≡ true
      → (f : ApiFeature Float) × (r ≡ (ok f, u)) × (mid ≡ (observed cr f).1)
  found cr mid (ok f, w) o u h e = (f, ap (λ s. (ok f, s)) (ap (λ t. t.2) h), sym (ap (λ t. t.1) h))
  found cr mid (err d, w) o u h e = ground arith

-- That many corrections in a row.
pub data Rounds {Float W : Type 0} ⦃N : FloatOps Float⦄ (client : FeatureClient Float W)
    : ℕ → Feature → W → Type 0 where
  done : {cr : Feature} {w : W} → Rounds client 0 cr w
  round :
      {n : ℕ} {cr after : Feature} {w w' : W}
      → Corrects client cr w after w'
      → Rounds client n after w'
      → Rounds client (suc n) cr w

module _ {Float W : Type 0} ⦃N : FloatOps Float⦄ (client : FeatureClient Float W) where
  flags_differ :
      (r : Result ExternalObservation × Feature × W) (o o' : ExternalObservation) (mid : Feature)
      (u : W)
      → r.0 ≡ ok o
      → o.resource_up_to_date ≡ true
      → r ≡ (ok o', mid, u)
      → o'.resource_up_to_date ≡ false
      → false ≡ true
  flags_differ r o o' mid u h fine k stale =
      let same : ok o ≡ ok o' = sym h ∙ ap (λ t. t.0) k in ground arith

  corrected :
      (cr after last : Feature) (w w' w'' : W)
      → StoresUpdates client
      → ReadsAgain client
      → Converges client cr w
      → Corrects client cr w after w'
      → Corrects client after w' last w''
      → false ≡ true
  unfolding observe
  corrected cr after last w w' w'' stores again can (o, (mid, (u, (d, (saw, exists, stale, sent)))))
        (o', (mid', (u', (d', (saw', exists', stale', sent'))))) =
      let (f, had, same) =
        found client cr mid (client.get_feature cr.external_name w) o u saw exists in
      let name : mid.external_name ≡ cr.external_name = ap (λ m. m.external_name) same in
      let read : (client.get_feature mid.external_name u).0 ≡ ok f =
        ap (λ id. (client.get_feature id u).0) name
        ∙ subst (λ v. (client.get_feature cr.external_name v).0 ≡ ok f) (ap (λ r. r.1) had)
            (again cr.external_name w ∙ ap (λ r. r.0) had) in
      let fit : CanConverge mid.for_provider f =
        subst (λ m. CanConverge m.for_provider f) (sym same)
          (filled-CanConverge cr.for_provider cr.init_provider f (can f (ap (λ r. r.0) had))) in
      let (now, says, _, fine) = observe-update client mid after u w' f d stores read fit sent in
      flags_differ (observe client after w') now o' mid' u' says fine saw' stale'

  -- The reconciler does not correct for ever. Where the API stores updates as it documents, reads the
  -- same feature twice in a row, and what Update cannot mend is right in the feature at the start,
  -- one correction is enough: no second one follows it.
  pub Rounds-short :
      (n : ℕ) (cr : Feature) (w : W)
      → StoresUpdates client
      → ReadsAgain client
      → Converges client cr w
      → Rounds client n cr w
      → n ≤ 1
  Rounds-short n cr w stores again can done = omega arith
  Rounds-short n cr w stores again can (round first done) = omega arith
  Rounds-short n cr w stores again can
        (round {after = after} {w' = w'} first (round {after = last} {w' = w''} second more)) =
      absurd (cc (corrected cr after last w w' w'' stores again can first second))
