-- ===== src/Feature/Observing.antt =====
-- What Observe, Create and Update of internal/controller/feature/feature.go report, over any API
-- client.
use provider_growthbook.Base.{
  ◌⊎◌, inl, inr, Bool-cases, String, true, false, List, [], ◌∷◌, ◌≡◌, ◌≢◌, ◌↔◌, refl, arith, ap,
  subst, sym, ◌∙◌,
}
use provider_growthbook.Base.Float.{FloatOps}
use provider_growthbook.Apis.Feature.{Feature}
use provider_growthbook.Controller.Managed.{ExternalObservation, absent, ConnectionDetails}
use provider_growthbook.Growthbook.Errors.{Result, ok, err, wrapped, is_not_found}
use provider_growthbook.Growthbook.Feature.{Feature as ApiFeature, FeatureRequest}
use provider_growthbook.Feature.Convert.{create_request, update_request, is_up_to_date, observation}
use provider_growthbook.Feature.Matches.{FeatureMatches}
use provider_growthbook.Feature.UpToDate.{is_up_to_date_iff}
use provider_growthbook.Feature.LateInitialize.{
  late_initialize-IsLateInitialized, is_up_to_date-late_initialize,
}
use provider_growthbook.Feature.Service.{IsPatched}
use provider_growthbook.Feature.Reconcile.{CanConverge, is_up_to_date-update_request}
use provider_growthbook.Feature.External.{
  FeatureClient, observed, observe_result, answered, observe, created, create, updated, update,
}
use provider_growthbook.Feature.Lifecycle.{Call, create_call, update_call, logged, logging}

module _ {Float : Type 0} ⦃N : FloatOps Float⦄ where
  -- What is reported of a feature that was found, and the resource as it is left.
  pub record IsReport (cr : Feature) (f : ApiFeature Float) (o : ExternalObservation)
      (after : Feature) : Type 0 where
    pub exists : o.resource_exists ≡ true
    pub up_to_date : (o.resource_up_to_date ≡ true) ↔ FeatureMatches cr.for_provider f
    pub late_initialized :
        (o.resource_late_initialized ≡ true) ↔ (after.for_provider ≢ cr.for_provider)
    pub others : after ≡ record cr {
      for_provider = after.for_provider;
      at_provider = observation f;
      available = true;
    }

  observed-IsReport :
      (cr : Feature) (f : ApiFeature Float) → IsReport cr f (observed cr f).0 (observed cr f).1
  observed-IsReport cr f =
      let p = cr.for_provider in
      let ip = cr.init_provider in
      record {
        exists = refl;
        up_to_date =
            subst (λ b. (b ≡ true) ↔ FeatureMatches p f)
              (sym (is_up_to_date-late_initialize p ip f)) (is_up_to_date_iff p f);
        late_initialized = (late_initialize-IsLateInitialized p ip f).reports;
        others = refl;
      }

module _ {Float W : Type 0} ⦃N : FloatOps Float⦄ where
  -- The three outcomes of Observe, by the answer to its one request.
  abbrev pub Observes :
      Feature → Result (ApiFeature Float) × W → Result ExternalObservation × Feature × W → Type 0
  Observes cr (ok f, w) (result, after, w') =
      (w' ≡ w) × ((o : ExternalObservation) × (result ≡ ok o) × IsReport cr f o after)
  Observes cr (err e, w) (result, after, w') =
      (w' ≡ w)
      × (after ≡ cr)
      × (((is_not_found e ≡ true) × (result ≡ ok absent))
          ⊎ ((is_not_found e ≡ false) × (result ≡ err (wrapped "cannot get feature" e))))

module _ {Float W : Type 0} ⦃N : FloatOps Float⦄ (client : FeatureClient Float W) where
  observe_result-Observes :
      (cr : Feature) (r : Result (ApiFeature Float) × W)
      → Observes cr r (observe_result client cr r)
  observe_result-Observes cr (ok f, w) = (refl, ((observed cr f).0, refl, observed-IsReport cr f))
  observe_result-Observes cr (err e, w) = elim (Bool-cases (is_not_found e)) [
    | inl gone ↦ rw gone (refl, refl, inl (refl, refl))
    | inr other ↦ rw other (refl, refl, inr (refl, refl))
  ]

  -- Observe makes the one request for the feature of the external name. A feature that is found is
  -- reported to exist, up to date exactly when it is what the given spec asks for, and late
  -- initialized exactly when the spec has changed; nothing else of the spec or the metadata changes.
  -- On an error the resource is left alone, and the feature is reported not to exist exactly when
  -- the error says so.
  pub observe-Observes :
      (cr : Feature) (w : W)
      → Observes cr (client.get_feature cr.external_name w) (observe client cr w)
  unfolding observe
  observe-Observes cr w = observe_result-Observes cr (client.get_feature cr.external_name w)

module _ {Float : Type 0} where
  -- One call with a request that could be built, none without.
  abbrev pub CallsFor :
      (FeatureRequest Float → Call Float)
      → Result (FeatureRequest Float)
      → List (Call Float)
      → Type 0
  CallsFor call (ok req) calls = calls ≡ call req ∷ []
  CallsFor call (err e) calls = calls ≡ []

module _ {Float W : Type 0} ⦃N : FloatOps Float⦄ (client : FeatureClient Float W) where
  answered_calls :
      (message : String) (cr : Feature) (c : Call Float) (r : Result (ApiFeature Float) × W)
      → (answered (logging client) message cr (logged c [] r)).2.0 ≡ c ∷ []
  answered_calls message cr c (ok f, w) = refl
  answered_calls message cr c (err e, w) = refl

  created_calls :
      (cr : Feature) (m : Result (FeatureRequest Float)) (w : W)
      → CallsFor create_call m (created (logging client) cr m ([], w)).2.0
  created_calls cr (err e) w = refl
  created_calls cr (ok req) w =
      answered_calls "cannot create feature" cr (create_call req) (client.create_feature req w)

  updated_calls :
      (cr : Feature) (m : Result (FeatureRequest Float)) (w : W)
      → CallsFor (update_call cr.external_name) m (updated (logging client) cr m ([], w)).2.0
  updated_calls cr (err e) w = refl
  updated_calls cr (ok req) w =
      answered_calls "cannot update feature" cr (update_call cr.external_name req)
        (client.update_feature cr.external_name req w)

  -- Create and Update make exactly one call each, with the request that is built of the spec, and
  -- none at all where the rules of the spec cannot be turned into a request.
  pub create-update-calls :
      (cr : Feature) (w : W)
      → CallsFor create_call
          (create_request cr.external_name cr.for_provider cr.init_provider)
          (create (logging client) cr ([], w)).2.0
        × CallsFor
            (update_call cr.external_name)
            (update_request cr.for_provider)
            (update (logging client) cr ([], w)).2.0
  unfolding create update
  create-update-calls cr w = (
    created_calls cr (create_request cr.external_name cr.for_provider cr.init_provider) w,
    updated_calls cr (update_request cr.for_provider) w,
  )

  -- An update that is answered without an error has been stored over what a read returned before
  -- it, and the next read returns the result.
  abbrev pub StoresUpdates : Type 0
  StoresUpdates =
      (id : String) (req : FeatureRequest Float) (w w' : W) (old f : ApiFeature Float)
      → (client.get_feature id w).0 ≡ ok old
      → client.update_feature id req w ≡ (ok f, w')
      → (new : ApiFeature Float) × ((client.get_feature id w').0 ≡ ok new) × IsPatched req old new

  pub answered_ok :
      (message : String) (cr after : Feature) (r : Result (ApiFeature Float) × W)
      (d : ConnectionDetails) (w' : W)
      → answered client message cr r ≡ (ok d, after, w')
      → (f : ApiFeature Float) × (r ≡ (ok f, w'))
        × (after.for_provider ≡ cr.for_provider)
        × (after.external_name ≡ cr.external_name)
  answered_ok message cr after (ok f, w) d w' h = (
    f,
    ap (λ s. (ok f, s)) (ap (λ t. t.2) h),
    sym (ap (λ t. t.1.for_provider) h),
    sym (ap (λ t. t.1.external_name) h),
  )
  answered_ok message cr after (err e, w) d w' h = ground arith

  updated_ok :
      (cr after : Feature) (m : Result (FeatureRequest Float)) (w w' : W) (d : ConnectionDetails)
      → updated client cr m w ≡ (ok d, after, w')
      → (req : FeatureRequest Float) × (m ≡ ok req)
        × ((f : ApiFeature Float) × (client.update_feature cr.external_name req w ≡ (ok f, w'))
            × (after.for_provider ≡ cr.for_provider)
            × (after.external_name ≡ cr.external_name))
  updated_ok cr after (err e) w w' d h = ground arith
  updated_ok cr after (ok req) w w' d h = (
    req,
    refl,
    answered_ok "cannot update feature" cr after (client.update_feature cr.external_name req w) d w'
        h,
  )

  pub observe_fresh :
      (after : Feature) (r : Result (ApiFeature Float) × W) (new : ApiFeature Float)
      → r.0 ≡ ok new
      → is_up_to_date after.for_provider new ≡ true
      → (o : ExternalObservation) × ((observe_result client after r).0 ≡ ok o)
        × (o.resource_exists ≡ true)
        × (o.resource_up_to_date ≡ true)
  observe_fresh after (ok f, w) new e fine = (
    (observed after f).0,
    refl,
    refl,
    is_up_to_date-late_initialize after.for_provider after.init_provider f
        ∙ subst (λ g. is_up_to_date after.for_provider g ≡ true) (ground arith) fine,
  )
  observe_fresh after (err d, w) new e fine = ground arith

  -- After an update that succeeds, Observe reports that the feature exists and is up to date, over
  -- a service that stores updates, and for a spec and a feature that can converge.
  pub observe-update :
      (cr after : Feature) (w w' : W) (old : ApiFeature Float) (d : ConnectionDetails)
      → StoresUpdates
      → (client.get_feature cr.external_name w).0 ≡ ok old
      → CanConverge cr.for_provider old
      → update client cr w ≡ (ok d, after, w')
      → (o : ExternalObservation) × ((observe client after w').0 ≡ ok o)
        × (o.resource_exists ≡ true)
        × (o.resource_up_to_date ≡ true)
  unfolding update observe
  observe-update cr after w w' old d stores had can h =
      let (req, built, (f, sent, same_spec, same_name)) =
        updated_ok cr after (update_request cr.for_provider) w w' d h in
      let (new, found, patched) = stores cr.external_name req w w' old f had sent in
      observe_fresh after (client.get_feature after.external_name w') new
        (ap (λ id. (client.get_feature id w').0) same_name ∙ found)
        (subst (λ p. is_up_to_date p new ≡ true) (sym same_spec)
          (is_up_to_date-update_request cr.for_provider req old new built patched can))
