-- ===== src/Project/Convert.antt =====
-- internal/controller/project/convert.go. Its `derefString` and `derefBool` are, word for word, the
-- ones of the Feature controller.
use provider_growthbook.Base.{
  String, Bool, true, false, not, ◌&&◌, Option, none, some, ◌==◌, ◌!=◌, string_eq, bool_eq,
  if◌then◌else◌, is_nil,
}
use provider_growthbook.Base.Float.{FloatOps, parse_float, float_eq}
use provider_growthbook.Apis.Project.{
  ProjectParameters, ProjectInitParameters, ProjectObservation, ProjectSettings,
}
use provider_growthbook.Growthbook.Errors.{Result, ok, err, wrapped, plain, ◌>>=◌}
use provider_growthbook.Growthbook.Project.{
  Project as ApiProject, ProjectRequest, ProjectSettings as ApiSettings,
}
use provider_growthbook.Feature.RulesConvert.{deref_string, deref_bool}
use provider_growthbook.Feature.Convert.{fill_text, fill, text_differs, flag_differs}

unfoldable pub merge_init_provider : ProjectParameters → ProjectInitParameters → ProjectParameters
merge_init_provider p ip = record {
  name = fill_text p.name ip.name;
  description = fill p.description ip.description;
  public_id = fill p.public_id ip.public_id;
  restrict_access = fill p.restrict_access ip.restrict_access;
  settings = fill p.settings ip.settings;
}

-- `p.RestrictAccess != nil && *p.RestrictAccess != derefBool(ext.RestrictAccess)`
abbrev pub access_differs : Option Bool → Option Bool → Bool
access_differs p ext = flag_differs p (deref_bool ext)

module _ {Float : Type 0} where
  unfoldable pub observation : ApiProject Float → ProjectObservation
  observation p = record {
    id = p.id;
    public_id = p.public_id;
    date_created = p.date_created;
    date_updated = p.date_updated;
  }

  unfoldable pub late_initialize :
      ProjectParameters → ProjectInitParameters → ApiProject Float → ProjectParameters × Bool
  late_initialize p ip ext =
      if not (is_nil p.public_id)
      then (p, false)
      else if not (is_nil ip.public_id)
      then (p, false)
      else if ext.public_id == ""
      then (p, false)
      else (record p { public_id = some ext.public_id }, true)

  unfoldable pub fields_up_to_date : ProjectParameters → ApiProject Float → Bool
  fields_up_to_date p ext =
      if p.name != ext.name
      then false
      else if text_differs p.description ext.description
      then false
      else if text_differs p.public_id ext.public_id
      then false
      else if access_differs p.restrict_access ext.restrict_access
      then false
      else true

unfoldable pub settings_empty : ProjectSettings → Bool
settings_empty s = is_nil s.stats_engine && is_nil s.confidence_level && is_nil s.p_value_threshold

module _ {Float : Type 0} ⦃N : FloatOps Float⦄ where
  -- The outcome of `strconv.ParseFloat` with the error's text `<field> is not a decimal`.
  abbrev pub parsed_decimal : String → Option Float → Result (Option Float)
  parsed_decimal message none = err (wrapped message (plain "strconv.ParseFloat"))
  parsed_decimal message (some f) = ok (some f)

  unfoldable pub parse_decimal : String → Option String → Result (Option Float)
  parse_decimal message none = ok none
  parse_decimal message (some s) = parsed_decimal message (parse_float s)

  abbrev pub settings_request : ProjectSettings → Result (ApiSettings Float)
  unfolding parse_decimal
  settings_request s = do
    confidence_level ← parse_decimal "confidenceLevel is not a decimal" s.confidence_level
    p_value_threshold ← parse_decimal "pValueThreshold is not a decimal" s.p_value_threshold
    ok (record {
      stats_engine = s.stats_engine;
      confidence_level = confidence_level;
      p_value_threshold = p_value_threshold;
    })

  abbrev pub request_body : ProjectParameters → Option (ApiSettings Float) → ProjectRequest Float
  request_body p settings = record {
    name = p.name;
    description = p.description;
    public_id = p.public_id;
    restrict_access = p.restrict_access;
    settings = settings;
  }

  abbrev pub with_settings :
      ProjectParameters → Option ProjectSettings → Result (ProjectRequest Float)
  unfolding parse_decimal
  with_settings p none = ok (request_body p none)
  with_settings p (some s) = do settings ← settings_request s; ok (request_body p (some settings))

  unfoldable pub request : ProjectParameters → Result (ProjectRequest Float)
  unfolding parse_decimal
  request p = with_settings p p.settings

  unfoldable pub create_request :
      ProjectParameters → ProjectInitParameters → Result (ProjectRequest Float)
  create_request p ip = request (merge_init_provider p ip)

  abbrev pub number_equal : Option Float → Float → Bool
  number_equal none actual = false
  number_equal (some f) actual = float_eq f actual

  unfoldable pub decimal_equal : Option String → Option Float → Bool
  decimal_equal none actual = true
  decimal_equal (some desired) none = false
  decimal_equal (some desired) (some actual) = number_equal (parse_float desired) actual

  unfoldable pub settings_up_to_date : Option ProjectSettings → Option (ApiSettings Float) → Bool
  settings_up_to_date none actual = true
  settings_up_to_date (some desired) none = settings_empty desired
  settings_up_to_date (some desired) (some actual) =
      if text_differs desired.stats_engine (deref_string actual.stats_engine)
      then false
      else decimal_equal desired.confidence_level actual.confidence_level
        && decimal_equal desired.p_value_threshold actual.p_value_threshold

  unfoldable pub is_up_to_date : ProjectParameters → ApiProject Float → Bool
  is_up_to_date p ext = fields_up_to_date p ext && settings_up_to_date p.settings ext.settings
