-- ===== src/Project/Drift.antt =====
-- The laws of `isUpToDate`, `lateInitialize` and `request` of internal/controller/project/convert.go.
use provider_growthbook.Base.{
  String, true, false, Option, none, some, ◌≡◌, ◌≢◌, ◌↔◌, arith, string_eq, bool_eq,
}
use provider_growthbook.Base.Float.{FloatOps, parse_float}
use provider_growthbook.Apis.Project.{ProjectParameters, ProjectInitParameters, ProjectSettings}
use provider_growthbook.Growthbook.Project.{Project as ApiProject, ProjectSettings as ApiSettings}
use provider_growthbook.Feature.RulesConvert.{deref_string, deref_bool}
use provider_growthbook.Feature.Matches.{Agrees, CoverageIs}
use provider_growthbook.Feature.UpToDate.{text_differs_iff, flag_differs_iff}
use provider_growthbook.Project.Convert.{
  late_initialize, fields_up_to_date, settings_empty, number_equal, decimal_equal,
  settings_up_to_date, is_up_to_date,
}
use text.Mathlib.TextEquality.{eq_iff}

module _ {Float : Type 0} ⦃N : FloatOps Float⦄ where
  -- A decimal left unset is not looked at; one that is set denotes the observed number.
  abbrev pub DecimalMatches : Option String → Option Float → Type 0
  DecimalMatches none actual = Unit
  DecimalMatches (some desired) actual = CoverageIs (parse_float desired) actual

  abbrev pub SettingsMatch : Option ProjectSettings → Option (ApiSettings Float) → Type 0
  SettingsMatch none actual = Unit
  SettingsMatch (some d) none =
      (d.stats_engine ≡ none) × (d.confidence_level ≡ none) × (d.p_value_threshold ≡ none)
  SettingsMatch (some d) (some a) =
      Agrees d.stats_engine (deref_string a.stats_engine)
      × DecimalMatches d.confidence_level a.confidence_level
      × DecimalMatches d.p_value_threshold a.p_value_threshold

  pub record ProjectMatches (p : ProjectParameters) (ext : ApiProject Float) : Type 0 where
    pub name : p.name ≡ ext.name
    pub description : Agrees p.description ext.description
    pub public_id : Agrees p.public_id ext.public_id
    pub restrict_access : Agrees p.restrict_access (deref_bool ext.restrict_access)
    pub settings : SettingsMatch p.settings ext.settings

  number_equal_iff :
      (f : Option Float) (a : Float) → (number_equal f a ≡ true) ↔ CoverageIs f (some a)
  number_equal_iff none a = ground arith
  number_equal_iff (some f) a = ground arith

  pub CoverageIs-none : (f : Option Float) → CoverageIs f none → ⊥
  CoverageIs-none none h = h
  CoverageIs-none (some f) h = h

  decimal_equal_iff :
      (d : Option String) (a : Option Float) → (decimal_equal d a ≡ true) ↔ DecimalMatches d a
  unfolding decimal_equal
  decimal_equal_iff none a = ground arith
  decimal_equal_iff (some d) none = ground (arith, CoverageIs-none (parse_float d))
  decimal_equal_iff (some d) (some a) = number_equal_iff (parse_float d) a

  settings_up_to_date_iff :
      (d : Option ProjectSettings) (a : Option (ApiSettings Float))
      → (settings_up_to_date d a ≡ true) ↔ SettingsMatch d a
  unfolding settings_up_to_date settings_empty
  settings_up_to_date_iff none a = ground arith
  settings_up_to_date_iff (some d) none = ground arith
  settings_up_to_date_iff (some d) (some a) = ground (
    arith,
    text_differs_iff d.stats_engine (deref_string a.stats_engine),
    decimal_equal_iff d.confidence_level a.confidence_level,
    decimal_equal_iff d.p_value_threshold a.p_value_threshold,
  )

  -- A Project is up to date exactly when its name is the observed one, each optional field that the
  -- user set has the observed value (an access flag that GrowthBook does not report counting as
  -- false), and the settings that the user set are the observed ones, decimals being compared as
  -- numbers; where GrowthBook reports no settings, none may be set.
  pub project_up_to_date_iff :
      (p : ProjectParameters) (ext : ApiProject Float)
      → (is_up_to_date p ext ≡ true) ↔ ProjectMatches p ext
  unfolding is_up_to_date fields_up_to_date
  project_up_to_date_iff p ext = ground (
    arith,
    eq_iff p.name ext.name,
    text_differs_iff p.description ext.description,
    text_differs_iff p.public_id ext.public_id,
    flag_differs_iff p.restrict_access (deref_bool ext.restrict_access),
    settings_up_to_date_iff p.settings ext.settings,
  )

  -- Late initialization of a Project writes the public id alone, and only where forProvider and
  -- initProvider leave it unset and the observed one is not empty; it reports a change exactly then,
  -- and it neither causes drift nor hides it.
  pub late_initialize-public_id :
      (p : ProjectParameters) (ip : ProjectInitParameters) (ext : ApiProject Float)
      → ((late_initialize p ip ext).1 ≡ true
          ↔ ((p.public_id ≡ none) × (ip.public_id ≡ none) × (ext.public_id ≢ "")))
        × ((late_initialize p ip ext).1 ≡ true
            → (late_initialize p ip ext).0 ≡ record p { public_id = some ext.public_id })
        × ((late_initialize p ip ext).1 ≡ false → (late_initialize p ip ext).0 ≡ p)
        × (is_up_to_date (late_initialize p ip ext).0 ext ≡ is_up_to_date p ext)
  unfolding late_initialize is_up_to_date fields_up_to_date
  late_initialize-public_id p ip ext =
      ground (arith, eq_iff ext.public_id "", eq_iff ext.public_id ext.public_id)
