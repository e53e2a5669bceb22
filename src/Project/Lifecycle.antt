-- ===== src/Project/Lifecycle.antt =====
-- Create of internal/controller/project/project.go, over any API client, and the Observe after it.
use provider_growthbook.Base.{
  true, false, Option, [], ◌≡◌, ◌≢◌, ◌⊎◌, ◌↔◌, inl, inr, refl, sym, ◌∙◌, ap, subst, arith, ◌==◌,
  string_eq,
}
use provider_growthbook.Base.Float.{FloatOps}
use provider_growthbook.Apis.Project.{Project, ProjectSettings}
use provider_growthbook.Controller.Managed.{ExternalObservation, ConnectionDetails}
use provider_growthbook.Growthbook.Errors.{Error, Result, ok, err, wrapped}
use provider_growthbook.Growthbook.Project.{Project as ApiProject, ProjectRequest}
use provider_growthbook.Feature.Merge.{Filled}
use provider_growthbook.Project.Convert.{create_request, observation, is_up_to_date}
use provider_growthbook.Project.Creation.{
  BadSettings, IsCreation, CreateOutcome, create_request-outcome,
}
use provider_growthbook.Project.Drift.{
  ProjectMatches, project_up_to_date_iff, late_initialize-public_id,
}
use provider_growthbook.Project.External.{
  ProjectClient, observed, observe_result, observe, create, created, recorded_id,
}
use text.Mathlib.TextEquality.{eq_iff}

module _ {Float W : Type 0} ⦃N : FloatOps Float⦄ (client : ProjectClient Float W) where
  -- What a creation with the request `req` returns and writes, by the answer to it.
  abbrev pub Creates :
      Project → ProjectRequest Float → W → Result ConnectionDetails × Project × W → Type 0
  Creates cr req w (result, after, w') =
      ((p : ApiProject Float) × (client.create_project req w ≡ (ok p, w'))
        × (result ≡ ok [])
        × (after ≡ record cr { external_name = p.id; at_provider = observation p }))
      ⊎ ((e : Error) × (client.create_project req w ≡ (err e, w'))
          × (after ≡ cr)
          × (result ≡ err (wrapped "cannot create project" e)))

  -- The outcomes of Create, by the settings that forProvider and initProvider give.
  abbrev pub CreationOutcome : Project → W → Result ConnectionDetails × Project × W → Type 0
  CreationOutcome cr w (result, after, w') =
      ((d : Option ProjectSettings) × Filled cr.for_provider.settings cr.init_provider.settings d
        × (e : Error) × BadSettings N d e
        × (w' ≡ w)
        × (after ≡ cr)
        × (result ≡ err (wrapped "invalid project settings" e)))
      ⊎ ((req : ProjectRequest Float) × IsCreation cr.for_provider cr.init_provider req
          × Creates cr req w (result, after, w'))

  recorded_id-outcome :
      (cr : Project) (req : ProjectRequest Float) (w : W) (r : Result (ApiProject Float) × W)
      → client.create_project req w ≡ r
      → Creates cr req w (recorded_id client cr r)
  recorded_id-outcome cr req w (ok p, w') h = inl (p, h, refl, refl)
  recorded_id-outcome cr req w (err e, w') h = inr (e, h, refl, refl)

  created-outcome :
      (cr : Project) (m : Result (ProjectRequest Float)) (w : W)
      → CreateOutcome cr.for_provider cr.init_provider m
      → CreationOutcome cr w (created client cr m w)
  created-outcome cr (err e) w (d, filled, bad) = inl (d, filled, e, bad, refl, refl, refl)
  created-outcome cr (ok req) w h =
      inr (req, h, recorded_id-outcome cr req w (client.create_project req w) refl)

  -- Create sends nothing and leaves the resource as it was where the settings, which initProvider
  -- gives where forProvider does not, hold a text that is no decimal; its error names the first such
  -- field. Otherwise it sends one request, in which each field that forProvider leaves unset has the
  -- value of initProvider and the decimals are numbers; the resource takes the assigned id as its
  -- external name exactly when that succeeds, and on an error it is left as it was.
  pub create-CreationOutcome : (cr : Project) (w : W) → CreationOutcome cr w (create client cr w)
  unfolding create
  create-CreationOutcome cr w =
      created-outcome cr (create_request cr.for_provider cr.init_provider) w
        (create_request-outcome Float cr.for_provider cr.init_provider)

  -- POST as GrowthBook documents it: the stored project has an id, and a read of that id returns
  -- what the creation returned.
  abbrev pub ReadsProjects : Type 0
  ReadsProjects =
      (req : ProjectRequest Float) (w w' : W) (p : ApiProject Float)
      → client.create_project req w ≡ (ok p, w')
      → (p.id ≢ "") × ((client.get_project p.id w').0 ≡ ok p)

  recorded_ok :
      (cr after : Project) (r : Result (ApiProject Float) × W) (d : ConnectionDetails) (w' : W)
      → recorded_id client cr r ≡ (ok d, after, w')
      → (p : ApiProject Float) × (r ≡ (ok p, w'))
        × (after.external_name ≡ p.id)
        × (after.for_provider ≡ cr.for_provider)
  recorded_ok cr after (ok p, w) d w' h = (
    p,
    ap (λ s. (ok p, s)) (ap (λ t. t.2) h),
    sym (ap (λ t. t.1.external_name) h),
    sym (ap (λ t. t.1.for_provider) h),
  )
  recorded_ok cr after (err e, w) d w' h = ground arith

  created_ok :
      (cr after : Project) (m : Result (ProjectRequest Float)) (w w' : W) (d : ConnectionDetails)
      → created client cr m w ≡ (ok d, after, w')
      → (req : ProjectRequest Float) × (p : ApiProject Float) × (client.create_project req w
          ≡ (ok p, w'))
        × (after.external_name ≡ p.id)
        × (after.for_provider ≡ cr.for_provider)
  created_ok cr after (err e) w w' d h = ground arith
  created_ok cr after (ok req) w w' d h =
      let (p, sent, named, spec) = recorded_ok cr after (client.create_project req w) d w' h in
      (req, p, sent, named, spec)

  found_fresh :
      (after : Project) (r : Result (ApiProject Float) × W) (p : ApiProject Float)
      → r.0 ≡ ok p
      → (o : ExternalObservation) × ((observe_result client after r).0 ≡ ok o)
        × (o.resource_exists ≡ true)
        × (o.resource_up_to_date ≡ is_up_to_date after.for_provider p)
  found_fresh after (ok q, w) p h =
      let (_, _, _, same) = late_initialize-public_id after.for_provider after.init_provider q in
      (
        (observed after q).0,
        refl,
        refl,
        same ∙ ap (λ g. is_up_to_date after.for_provider g) (ground arith),
      )
  found_fresh after (err e, w) p h = ground arith

  -- After a creation that succeeds, Observe finds the project under the id that the creation recorded,
  -- and reports it up to date exactly when the service stored what forProvider asks for, over a
  -- service that reads back what it created.
  pub observe-create_project :
      (cr after : Project) (w w' : W) (d : ConnectionDetails)
      → ReadsProjects
      → create client cr w ≡ (ok d, after, w')
      → (p : ApiProject Float) × (o : ExternalObservation) × ((client.get_project
            after.external_name w').0
          ≡ ok p)
        × ((observe client after w').0 ≡ ok o)
        × (o.resource_exists ≡ true)
        × ((o.resource_up_to_date ≡ true) ↔ ProjectMatches cr.for_provider p)
  unfolding create observe
  observe-create_project cr after w w' d reads h =
      let (req, p, sent, named, spec) =
        created_ok cr after (create_request cr.for_provider cr.init_provider) w w' d h in
      let (has_id, read) = reads req w w' p sent in
      let there : (client.get_project after.external_name w').0 ≡ ok p =
        ap (λ id. (client.get_project id w').0) named ∙ read in
      let (o, found, exists, fresh) =
        found_fresh after (client.get_project after.external_name w') p there in
      let nonempty : (after.external_name == "") ≡ false =
        ground (arith, eq_iff after.external_name "", has_id) in
      (
        p,
        o,
        there,
        rw nonempty found,
        exists,
        subst (λ b. (b ≡ true) ↔ ProjectMatches cr.for_provider p)
            (ap (λ q. is_up_to_date q p) (sym spec) ∙ sym fresh)
            (project_up_to_date_iff cr.for_provider p),
      )
