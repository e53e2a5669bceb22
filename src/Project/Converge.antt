-- ===== src/Project/Converge.antt =====
-- `request` and `isUpToDate` of internal/controller/project. The service is GrowthBook's
-- PUT /v1/projects/{id} as it is documented: a field that the body leaves out is left as it is, any
-- other is stored.
use provider_growthbook.Base.{String, true, Option, none, some, ◌≡◌, refl, sym, arith, ap, subst}
use provider_growthbook.Base.Float.{FloatOps, parse_float}
use provider_growthbook.Apis.Project.{ProjectParameters, ProjectSettings}
use provider_growthbook.Growthbook.Errors.{ok, >>=-ok_steps}
use provider_growthbook.Growthbook.Project.{
  Project as ApiProject, ProjectRequest, ProjectSettings as ApiSettings,
}
use provider_growthbook.Feature.RulesConvert.{deref_string, deref_bool}
use provider_growthbook.Feature.Matches.{Agrees}
use provider_growthbook.Feature.Service.{TextPatched, FieldPatched}
use provider_growthbook.Feature.RulesRequest.{CoverageSent}
use provider_growthbook.Feature.Converge.{CoverageIsSane, number_matches}
use provider_growthbook.Feature.Reconcile.{field-Agrees, text_agrees}
use provider_growthbook.Project.Convert.{
  parse_decimal, parsed_decimal, settings_request, request_body, with_settings, request,
  is_up_to_date,
}
use provider_growthbook.Project.Drift.{
  DecimalMatches, SettingsMatch, CoverageIs-none, project_up_to_date_iff,
}

-- A field of the settings that is sent is stored.
abbrev pub PartStored : {A : Type 0} → Option A → Option A → Type 0
PartStored none new = Unit
PartStored (some v) new = new ≡ some v

part-Agrees : (d new : Option String) → PartStored d new → Agrees d (deref_string new)
part-Agrees none new h = tt
part-Agrees (some v) none h = ground arith
part-Agrees (some v) (some g) h = ground arith

part_unset : (d : Option String) → PartStored d none → d ≡ none
part_unset none h = refl
part_unset (some v) h = ground arith

module _ {Float : Type 0} (N : FloatOps Float) where
  decimal_unset : (d : Option String) → DecimalMatches ⦃N = N⦄ d none → d ≡ none
  decimal_unset none h = refl
  decimal_unset (some s) h = absurd (CoverageIs-none ⦃N = N⦄ (N.parse_float s) h)

module _ {Float : Type 0} where
  abbrev pub stats_of : Option (ApiSettings Float) → Option String
  stats_of none = none
  stats_of (some s) = s.stats_engine

  abbrev pub confidence_of : Option (ApiSettings Float) → Option Float
  confidence_of none = none
  confidence_of (some s) = s.confidence_level

  abbrev pub threshold_of : Option (ApiSettings Float) → Option Float
  threshold_of none = none
  threshold_of (some s) = s.p_value_threshold

  abbrev pub SettingsPatched : Option (ApiSettings Float) → Option (ApiSettings Float) → Type 0
  SettingsPatched none new = Unit
  SettingsPatched (some s) new =
      PartStored s.stats_engine (stats_of new)
      × PartStored s.confidence_level (confidence_of new)
      × PartStored s.p_value_threshold (threshold_of new)

  -- The project `new` is what the service holds after the request has changed `old`.
  pub record IsPut (req : ProjectRequest Float) (old new : ApiProject Float) : Type 0 where
    pub name : TextPatched req.name old.name new.name
    pub description : FieldPatched req.description old.description new.description
    pub public_id : FieldPatched req.public_id old.public_id new.public_id
    pub restrict_access :
        FieldPatched req.restrict_access
          (deref_bool old.restrict_access)
          (deref_bool new.restrict_access)
    pub settings : SettingsPatched req.settings new.settings

module _ {Float : Type 0} (N : FloatOps Float) where
  -- The decimals of the settings do not denote NaN.
  abbrev pub SettingsAreSane : Option ProjectSettings → Type 0
  SettingsAreSane none = Unit
  SettingsAreSane (some s) =
      CoverageIsSane N s.confidence_level × CoverageIsSane N s.p_value_threshold

module _ {Float : Type 0} ⦃N : FloatOps Float⦄ where
  parsed_decimal-sent :
      (message : String) (o : Option Float) (c : Option Float)
      → parsed_decimal message o ≡ ok c
      → (f : Float) × (o ≡ some f) × (c ≡ some f)
  parsed_decimal-sent message none c h = ground arith
  parsed_decimal-sent message (some f) c h = (f, refl, ground arith)

  parse_decimal-CoverageSent :
      (message : String) (d : Option String) (c : Option Float)
      → parse_decimal message d ≡ ok c
      → CoverageSent N d c
  unfolding parse_decimal
  parse_decimal-CoverageSent message none c h = ground arith
  parse_decimal-CoverageSent message (some s) c h = parsed_decimal-sent message (parse_float s) c h

  stored_matches :
      (d : Option String) (c new : Option Float)
      → CoverageSent N d c
      → CoverageIsSane N d
      → PartStored c new
      → DecimalMatches d new
  stored_matches none c new sent sane h = tt
  stored_matches (some s) c new (f, parsed, e) sane h =
      number_matches (parse_float s) new f parsed (subst (λ o. PartStored o new) e h) sane

  settings_matched :
      (d : ProjectSettings) (new : Option (ApiSettings Float))
      → Agrees d.stats_engine (deref_string (stats_of new))
      → PartStored d.stats_engine (stats_of new)
      → DecimalMatches d.confidence_level (confidence_of new)
      → DecimalMatches d.p_value_threshold (threshold_of new)
      → SettingsMatch (some d) new
  settings_matched d none agrees stats confidence threshold = (
    part_unset d.stats_engine stats,
    decimal_unset N d.confidence_level confidence,
    decimal_unset N d.p_value_threshold threshold,
  )
  settings_matched d (some s) agrees stats confidence threshold = (agrees, confidence, threshold)

  settings_request-sent :
      (d : ProjectSettings) (s : ApiSettings Float)
      → settings_request d ≡ ok s
      → (s.stats_engine ≡ d.stats_engine)
        × CoverageSent N d.confidence_level s.confidence_level
        × CoverageSent N d.p_value_threshold s.p_value_threshold
  unfolding parse_decimal
  settings_request-sent d s h =
      let (c, parsed, more) =
        >>=-ok_steps (parse_decimal "confidenceLevel is not a decimal" d.confidence_level) _ h in
      let (t, parsed_too, last) =
        >>=-ok_steps (parse_decimal "pValueThreshold is not a decimal" d.p_value_threshold) _
          more in
      let (e₀, e₁, e₂) : (s.stats_engine ≡ d.stats_engine)
          × (c ≡ s.confidence_level)
          × (t ≡ s.p_value_threshold) =
        (ground arith, ground arith, ground arith) in
      (
        e₀,
        subst (CoverageSent N d.confidence_level) e₁
            (parse_decimal-CoverageSent _ d.confidence_level c parsed),
        subst (CoverageSent N d.p_value_threshold) e₂
            (parse_decimal-CoverageSent _ d.p_value_threshold t parsed_too),
      )

  patched_matches :
      (d : ProjectSettings) (s : ApiSettings Float) (new : Option (ApiSettings Float))
      → settings_request d ≡ ok s
      → SettingsAreSane N (some d)
      → SettingsPatched (some s) new
      → SettingsMatch (some d) new
  patched_matches d s new h (fine, sane) (stats, confidence, threshold) =
      let (e, c, t) = settings_request-sent d s h in
      let stored : PartStored d.stats_engine (stats_of new) =
        subst (λ o. PartStored o (stats_of new)) e stats in
      settings_matched d new (part-Agrees d.stats_engine (stats_of new) stored) stored
        (stored_matches d.confidence_level s.confidence_level (confidence_of new) c fine confidence)
        (stored_matches d.p_value_threshold s.p_value_threshold (threshold_of new) t sane threshold)

  settings_agree :
      (p : ProjectParameters) (d : Option ProjectSettings) (req : ProjectRequest Float)
      (old new : ApiProject Float)
      → with_settings p d ≡ ok req
      → SettingsAreSane N d
      → IsPut req old new
      → (req ≡ request_body p req.settings) × SettingsMatch d new.settings
  unfolding parse_decimal
  settings_agree p none req old new h sane stored = (ground arith, tt)
  settings_agree p (some d) req old new h sane stored =
      let (s, built, sent) = >>=-ok_steps (settings_request d) _ h in
      let e : request_body p (some s) ≡ req = ground arith in
      (
        ground arith,
        patched_matches d s new.settings built sane (
            subst (λ r. SettingsPatched r new.settings) (ap (λ r. r.settings) (sym e))
              stored.settings),
      )

  -- Once the service has stored what Update sends of a Project, the next Observe finds it up to
  -- date, provided that an empty name is the stored one and that no decimal of the settings denotes
  -- NaN.
  pub is_up_to_date-request :
      (p : ProjectParameters) (req : ProjectRequest Float) (old new : ApiProject Float)
      → request p ≡ ok req
      → IsPut req old new
      → (p.name ≡ "" → old.name ≡ "")
      → SettingsAreSane N p.settings
      → is_up_to_date p new ≡ true
  unfolding request
  is_up_to_date-request p req old new h stored named sane =
      let (e, settings) = settings_agree p p.settings req old new h sane stored in
      let put : IsPut (request_body p req.settings) old new =
        subst (λ r. IsPut r old new) e stored in
      (project_up_to_date_iff p new).1 (record {
        name = text_agrees p.name old.name new.name named put.name;
        description = field-Agrees p.description old.description new.description put.description;
        public_id = field-Agrees p.public_id old.public_id new.public_id put.public_id;
        restrict_access =
            field-Agrees p.restrict_access (deref_bool old.restrict_access)
              (deref_bool new.restrict_access) put.restrict_access;
        settings = settings;
      })
