-- ===== src/Project/Creation.antt =====
-- What `createRequest` of internal/controller/project/convert.go sends, and which error it returns.
use provider_growthbook.Base.{
  String, Option, none, some, ◌≡◌, ◌⊎◌, inl, inr, refl, sym, subst, string_eq,
}
use provider_growthbook.Base.Float.{FloatOps}
use provider_growthbook.Apis.Project.{ProjectParameters, ProjectInitParameters, ProjectSettings}
use provider_growthbook.Growthbook.Errors.{Error, Result, ok, err, wrapped, plain, ◌>>=◌}
use provider_growthbook.Growthbook.Project.{ProjectRequest, ProjectSettings as ApiSettings}
use provider_growthbook.Feature.Merge.{Filled, TextFilled, Filled-fill, TextFilled-fill_text}
use provider_growthbook.Feature.RulesRequest.{BadCoverage, CoverageSent}
use provider_growthbook.Project.Convert.{
  merge_init_provider, parsed_decimal, parse_decimal, settings_request, request_body, with_settings,
  request, create_request,
}

module _ {Float : Type 0} (N : FloatOps Float) where
  -- A decimal of the settings is no number; the error names the first such field.
  abbrev pub BadSettings : Option ProjectSettings → Error → Type 0
  BadSettings none e = ⊥
  BadSettings (some d) e =
      (BadCoverage N d.confidence_level
        × (e ≡ wrapped "confidenceLevel is not a decimal" (plain "strconv.ParseFloat")))
      ⊎ ((c : Option Float) × CoverageSent N d.confidence_level c
          × BadCoverage N d.p_value_threshold
          × (e ≡ wrapped "pValueThreshold is not a decimal" (plain "strconv.ParseFloat")))

module _ {Float : Type 0} ⦃N : FloatOps Float⦄ where
  -- The settings on the wire: not sent where they are unset, and else sent with the decimals as
  -- numbers.
  abbrev pub SettingsSent : Option ProjectSettings → Option (ApiSettings Float) → Type 0
  SettingsSent none sent = sent ≡ none
  SettingsSent (some d) none = ⊥
  SettingsSent (some d) (some sent) =
      (sent.stats_engine ≡ d.stats_engine)
      × CoverageSent N d.confidence_level sent.confidence_level
      × CoverageSent N d.p_value_threshold sent.p_value_threshold

  -- The request of a creation: a field that forProvider leaves unset has the value of initProvider.
  pub record IsCreation (p : ProjectParameters) (ip : ProjectInitParameters)
      (req : ProjectRequest Float) : Type 0 where
    pub name : TextFilled p.name ip.name req.name
    pub description : Filled p.description ip.description req.description
    pub public_id : Filled p.public_id ip.public_id req.public_id
    pub restrict_access : Filled p.restrict_access ip.restrict_access req.restrict_access
    pub settings :
        (d : Option ProjectSettings) × Filled p.settings ip.settings d × SettingsSent d req.settings

  abbrev DecimalOutcome : Option String → String → Result (Option Float) → Type 0
  DecimalOutcome d message (ok c) = CoverageSent N d c
  DecimalOutcome d message (err e) =
      BadCoverage N d × (e ≡ wrapped message (plain "strconv.ParseFloat"))

  parsed_decimal-outcome :
      (message s : String) (o : Option Float)
      → N.parse_float s ≡ o
      → DecimalOutcome (some s) message (parsed_decimal message o)
  parsed_decimal-outcome message s none h = (h, refl)
  parsed_decimal-outcome message s (some f) h = (f, h, refl)

  abbrev SettingsOutcome : ProjectSettings → Result (ApiSettings Float) → Type 0
  SettingsOutcome d (ok sent) = SettingsSent (some d) (some sent)
  SettingsOutcome d (err e) = BadSettings N (some d) e

  decimals_outcome :
      (d : ProjectSettings) (c t : Result (Option Float))
      → DecimalOutcome d.confidence_level "confidenceLevel is not a decimal" c
      → DecimalOutcome d.p_value_threshold "pValueThreshold is not a decimal" t
      → SettingsOutcome d (
          c >>= λ confidence. t >>= λ threshold. ok (record {
            stats_engine = d.stats_engine;
            confidence_level = confidence;
            p_value_threshold = threshold;
          }))
  decimals_outcome d (err e) t h k = inl h
  decimals_outcome d (ok c) (err e) h (bad, text) = inr (c, h, bad, text)
  decimals_outcome d (ok c) (ok t) h k = (refl, h, k)

  abbrev RequestOutcome :
      ProjectParameters → Option ProjectSettings → Result (ProjectRequest Float) → Type 0
  RequestOutcome p d (ok req) =
      (sent : Option (ApiSettings Float)) × SettingsSent d sent × (req ≡ request_body p sent)
  RequestOutcome p d (err e) = BadSettings N d e

  body_outcome :
      (p : ProjectParameters) (d : ProjectSettings) (m : Result (ApiSettings Float))
      → SettingsOutcome d m
      → RequestOutcome p (some d) (m >>= λ sent. ok (request_body p (some sent)))
  body_outcome p d (ok sent) h = (some sent, h, refl)
  body_outcome p d (err e) h = h

  abbrev pub CreateOutcome :
      ProjectParameters → ProjectInitParameters → Result (ProjectRequest Float) → Type 0
  CreateOutcome p ip (ok req) = IsCreation p ip req
  CreateOutcome p ip (err e) =
      (d : Option ProjectSettings) × Filled p.settings ip.settings d × BadSettings N d e

  merged_outcome :
      (p : ProjectParameters) (ip : ProjectInitParameters) (m : Result (ProjectRequest Float))
      → RequestOutcome (merge_init_provider p ip) (merge_init_provider p ip).settings m
      → CreateOutcome p ip m
  unfolding merge_init_provider
  merged_outcome p ip (err e) h =
      ((merge_init_provider p ip).settings, Filled-fill p.settings ip.settings, h)
  merged_outcome p ip (ok req) (sent, h, e) = subst (IsCreation p ip) (sym e) (record {
    name = TextFilled-fill_text p.name ip.name;
    description = Filled-fill p.description ip.description;
    public_id = Filled-fill p.public_id ip.public_id;
    restrict_access = Filled-fill p.restrict_access ip.restrict_access;
    settings = ((merge_init_provider p ip).settings, Filled-fill p.settings ip.settings, h);
  })

module _ (Float : Type 0) ⦃N : FloatOps Float⦄ where
  parse_decimal-outcome :
      (message : String) (d : Option String)
      → DecimalOutcome {Float = Float} d message (parse_decimal message d)
  unfolding parse_decimal
  parse_decimal-outcome message none = refl
  parse_decimal-outcome message (some s) = parsed_decimal-outcome message s (N.parse_float s) refl

  settings_request-outcome :
      (d : ProjectSettings) → SettingsOutcome {Float = Float} d (settings_request d)
  unfolding parse_decimal
  settings_request-outcome d =
      decimals_outcome d (parse_decimal "confidenceLevel is not a decimal" d.confidence_level)
        (parse_decimal "pValueThreshold is not a decimal" d.p_value_threshold)
        (parse_decimal-outcome "confidenceLevel is not a decimal" d.confidence_level)
        (parse_decimal-outcome "pValueThreshold is not a decimal" d.p_value_threshold)

  with_settings-outcome :
      (p : ProjectParameters) (d : Option ProjectSettings)
      → RequestOutcome {Float = Float} p d (with_settings p d)
  unfolding parse_decimal
  with_settings-outcome p none = (none, refl, refl)
  with_settings-outcome p (some d) =
      body_outcome p d (settings_request d) (settings_request-outcome d)

  pub create_request-outcome :
      (p : ProjectParameters) (ip : ProjectInitParameters)
      → CreateOutcome {Float = Float} p ip (create_request p ip)
  unfolding create_request request
  create_request-outcome p ip =
      let merged = merge_init_provider p ip in
      merged_outcome p ip (request merged) (with_settings-outcome merged merged.settings)
