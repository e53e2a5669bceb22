-- ===== src/Feature/Creating.antt =====
-- Create of internal/controller/feature/feature.go and the Observe after it. The service is GrowthBook's
-- POST /v2/features as it is documented: a new feature has the value type that was sent, no tags, and
-- otherwise the service's own values, over which it stores what the body has.
use provider_growthbook.Base.{
  String, true, Option, none, some, List, [], ◌≡◌, refl, sym, ◌∙◌, ap, subst, arith, string_eq,
}
use provider_growthbook.Base.Lists.{elems, All}
use provider_growthbook.Base.Float.{FloatOps}
use provider_growthbook.Apis.Feature.{
  Feature, FeatureRule, FeatureParameters, FeatureInitParameters,
}
use provider_growthbook.Controller.Managed.{ExternalObservation, ConnectionDetails}
use provider_growthbook.Growthbook.Errors.{Result, ok, err}
use provider_growthbook.Growthbook.Feature.{Feature as ApiFeature, FeatureRequest}
use provider_growthbook.Feature.Convert.{create_request, update_request, is_up_to_date}
use provider_growthbook.Feature.Converge.{IsSane}
use provider_growthbook.Feature.Matches.{
  Agrees, AgreesAsSet, EnvironmentsMatch, RulesMatch, FeatureMatches,
}
use provider_growthbook.Feature.Merge.{
  Filled, TextFilled, IsMerged, CreateIs, create_request-IsMerged,
}
use provider_growthbook.Feature.Reconcile.{CanConverge, is_up_to_date-update_request}
use provider_growthbook.Feature.Service.{IsPatched}
use provider_growthbook.Feature.UpToDate.{is_up_to_date_iff}
use provider_growthbook.Feature.External.{FeatureClient, created, create, observe}
use provider_growthbook.Feature.Observing.{answered_ok, observe_fresh}
use text.Mathlib.TextEquality.{eq_iff}

module _ {Float : Type 0} where
  -- The feature `new` is what the service holds after it has created it for the request.
  abbrev pub IsCreated : FeatureRequest Float → ApiFeature Float → Type 0
  IsCreated req new =
      (blank : ApiFeature Float) × (blank.value_type ≡ req.value_type)
      × (blank.default_value ≡ "")
      × (elems blank.tags ≡ [])
      × IsPatched req blank new

  same_body :
      (sent : FeatureRequest Float) (id value_type : String) (old new : ApiFeature Float)
      → IsPatched (record sent { id = id; value_type = value_type }) old new
      → IsPatched sent old new
  same_body sent id value_type old new h = record {
    value_type = h.value_type;
    default_value = h.default_value;
    description = h.description;
    project = h.project;
    tags = h.tags;
    archived = h.archived;
    owner = h.owner;
    environments = h.environments;
    rules = h.rules;
  }

own_text :
    (p : String) (ip : Option String) (after : String)
    → TextFilled p ip after
    → (p ≡ "" → ip ≡ none)
    → p ≡ after
own_text p none after h own = sym h
own_text p (some i) after (kept, filled) own = ground (arith, eq_iff p "")

own_field :
    {A : Type 0} (P : Option A → Type 0) (p ip after : Option A)
    → Filled p ip after
    → P none
    → P after
    → P p
own_field P none ip after h unset k = unset
own_field P (some a) ip after h unset k = subst P h k

-- The value type and the default value are not left to initProvider.
abbrev pub OwnsValues : FeatureParameters → FeatureInitParameters → Type 0
OwnsValues p ip =
    (p.value_type ≡ "" → ip.value_type ≡ none) × (p.default_value ≡ "" → ip.default_value ≡ none)

module _ {Float : Type 0} (N : FloatOps Float) where
  merged-IsSane :
      (p ip merged : Option (List FeatureRule))
      → Filled p ip merged
      → All (IsSane N) (elems p)
      → All (IsSane N) (elems ip)
      → All (IsSane N) (elems merged)
  merged-IsSane none ip merged h a b = subst (λ o. All (IsSane N) (elems o)) (sym h) b
  merged-IsSane (some rs) ip merged h a b = subst (λ o. All (IsSane N) (elems o)) (sym h) a

module _ {Float : Type 0} ⦃N : FloatOps Float⦄ where
  merged-FeatureMatches :
      (p : FeatureParameters) (ip : FeatureInitParameters) (merged : FeatureParameters)
      (new : ApiFeature Float)
      → IsMerged p ip merged
      → OwnsValues p ip
      → FeatureMatches merged new
      → FeatureMatches p new
  merged-FeatureMatches p ip merged new m (own_type, own_default) h = record {
    value_type =
        own_text p.value_type ip.value_type merged.value_type m.value_type own_type ∙ h.value_type;
    default_value =
        own_text p.default_value ip.default_value merged.default_value m.default_value own_default
        ∙ h.default_value;
    description =
        own_field (λ o. Agrees o new.description) p.description ip.description merged.description
          m.description tt h.description;
    project =
        own_field (λ o. Agrees o new.project) p.project ip.project merged.project m.project tt
          h.project;
    archived =
        own_field (λ o. Agrees o new.archived) p.archived ip.archived merged.archived m.archived tt
          h.archived;
    owner = own_field (λ o. Agrees o new.owner) p.owner ip.owner merged.owner m.owner tt h.owner;
    tags = own_field (λ o. AgreesAsSet o new.tags) p.tags ip.tags merged.tags m.tags tt h.tags;
    environments =
        own_field (λ o. EnvironmentsMatch (elems o) (elems new.environments)) p.environments
          ip.environments merged.environments m.environments tt h.environments;
    rules =
        own_field (λ o. RulesMatch o new.rules) p.rules ip.rules merged.rules m.rules tt h.rules;
  }

  created_request :
      (id : String) (merged : FeatureParameters) (m created : Result (FeatureRequest Float))
      (req : FeatureRequest Float)
      → CreateIs id merged m created
      → created ≡ ok req
      → (sent : FeatureRequest Float) × (m ≡ ok sent)
        × (req ≡ record sent { id = id; value_type = merged.value_type })
  created_request id merged (ok sent) made req h e = (sent, refl, ground arith)
  created_request id merged (err d) made req h e = ground arith

  -- A feature that was created for the request that Create sends is what the spec asks for.
  is_up_to_date-create_request :
      (id : String) (p : FeatureParameters) (ip : FeatureInitParameters)
      (req : FeatureRequest Float) (new : ApiFeature Float)
      → create_request id p ip ≡ ok req
      → IsCreated req new
      → OwnsValues p ip
      → All (IsSane N) (elems p.rules)
      → All (IsSane N) (elems ip.rules)
      → (req.id ≡ id) × (is_up_to_date p new ≡ true)
  is_up_to_date-create_request id p ip req new built (blank, of_type, no_default, no_tags, patched)
        own a b =
      let (merged, m, made) = create_request-IsMerged Float id p ip in
      let (sent, e, body) =
        created_request id merged (update_request merged) (create_request id p ip) req made built in
      let can : CanConverge merged blank = record {
        value_type = sym (of_type ∙ ap (λ r. r.value_type) body);
        default_value = λ h. no_default;
        tags = λ h. no_tags;
        rules = merged-IsSane N p.rules ip.rules merged.rules m.rules a b;
      } in
      let stored : IsPatched sent blank new =
        same_body sent id merged.value_type blank new
          (subst (λ r. IsPatched r blank new) body patched) in
      (
        ap (λ r. r.id) body,
        (is_up_to_date_iff p new).1 (
            merged-FeatureMatches p ip merged new m own (
              (is_up_to_date_iff merged new).0
                (is_up_to_date-update_request merged sent blank new e stored can))),
      )

module _ {Float W : Type 0} ⦃N : FloatOps Float⦄ (client : FeatureClient Float W) where
  -- A creation that is answered without an error has been stored, and a read of the id returns it.
  abbrev pub CreatesFeatures : Type 0
  CreatesFeatures =
      (req : FeatureRequest Float) (w w' : W) (f : ApiFeature Float)
      → client.create_feature req w ≡ (ok f, w')
      → (new : ApiFeature Float) × ((client.get_feature req.id w').0 ≡ ok new) × IsCreated req new

  created_ok :
      (cr after : Feature) (m : Result (FeatureRequest Float)) (w w' : W) (d : ConnectionDetails)
      → created client cr m w ≡ (ok d, after, w')
      → (req : FeatureRequest Float) × (m ≡ ok req)
        × ((f : ApiFeature Float) × (client.create_feature req w ≡ (ok f, w'))
            × (after.for_provider ≡ cr.for_provider)
            × (after.external_name ≡ cr.external_name))
  created_ok cr after (err e) w w' d h = ground arith
  created_ok cr after (ok req) w w' d h = (
    req,
    refl,
    answered_ok client "cannot create feature" cr after (client.create_feature req w) d w' h,
  )

  -- After a creation that succeeds, Observe reports that the feature exists and is up to date, over a
  -- service that creates features as documented, for a spec that does not leave the value type or the
  -- default value to initProvider, and whose rules can be reconciled.
  pub observe-create_feature :
      (cr after : Feature) (w w' : W) (d : ConnectionDetails)
      → CreatesFeatures
      → OwnsValues cr.for_provider cr.init_provider
      → All (IsSane N) (elems cr.for_provider.rules)
      → All (IsSane N) (elems cr.init_provider.rules)
      → create client cr w ≡ (ok d, after, w')
      → (o : ExternalObservation) × ((observe client after w').0 ≡ ok o)
        × (o.resource_exists ≡ true)
        × (o.resource_up_to_date ≡ true)
  unfolding create observe
  observe-create_feature cr after w w' d creates own a b h =
      let p = cr.for_provider in
      let ip = cr.init_provider in
      let (req, built, (f, sent, same_spec, same_name)) =
        created_ok cr after (create_request cr.external_name p ip) w w' d h in
      let (new, found, made) = creates req w w' f sent in
      let (named, fresh) =
        is_up_to_date-create_request cr.external_name p ip req new built made own a b in
      observe_fresh client after (client.get_feature after.external_name w') new
        (ap (λ id. (client.get_feature id w').0) (same_name ∙ sym named) ∙ found)
        (subst (λ q. is_up_to_date q new ≡ true) (sym same_spec) fresh)
