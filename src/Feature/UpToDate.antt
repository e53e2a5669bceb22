-- ===== src/Feature/UpToDate.antt =====
-- `isUpToDate` of internal/controller/feature against `FeatureMatches`: the rules and the whole.
use provider_growthbook.Base.{
  String, Bool, true, false, Option, none, some, List, [], ◌∷◌, ◌≡◌, ◌↔◌, arith, nat_eq, string_eq,
  bool_eq,
}
use provider_growthbook.Base.Lists.{elems, lookup}
use provider_growthbook.Base.Float.{FloatOps}
use provider_growthbook.Apis.Feature.{FeatureRule, FeatureParameters, FeatureEnvironment}
use provider_growthbook.Growthbook.Feature.{
  FeatureRule as ApiRule, Feature as ApiFeature, FeatureEnvironment as ApiEnvironment,
}
use provider_growthbook.Feature.SameSet.{same_set-iff_perm}
use provider_growthbook.Feature.RulesConvert.{deref_string}
use provider_growthbook.Feature.RulesDrift.{rule_up_to_date, rules_up_to_date}
use provider_growthbook.Feature.Convert.{
  text_differs, flag_differs, set_differs, environment_up_to_date, enabled_is, environments_loop,
  environments_up_to_date, value_up_to_date, ownership_up_to_date, metadata_up_to_date,
  is_up_to_date,
}
use provider_growthbook.Feature.Matches.{
  Agrees, AgreesAsSet, EnabledIs, EnvironmentsMatch, RuleMatches, RulesMatch, FeatureMatches,
}
use provider_growthbook.Feature.DriftLaws.{
  pairwise_iff, saved_groups_up_to_date_iff, id_differs_iff, environments_rule_up_to_date_iff,
  rule_value_up_to_date_iff,
}
use text.Mathlib.TextEquality.{eq_iff}

pub text_differs_iff :
    (p : Option String) (ext : String) → (text_differs p ext ≡ false) ↔ Agrees p ext
text_differs_iff none ext = ground arith
text_differs_iff (some p) ext = ground (arith, eq_iff p ext)

pub flag_differs_iff : (p : Option Bool) (ext : Bool) → (flag_differs p ext ≡ false) ↔ Agrees p ext
flag_differs_iff none ext = ground arith
flag_differs_iff (some p) ext = ground arith

set_differs_iff : (p ext : Option (List String)) → (set_differs p ext ≡ false) ↔ AgreesAsSet p ext
set_differs_iff none ext = ground arith
set_differs_iff (some p) ext = ground (arith, same_set-iff_perm (some p) ext)

enabled_is_iff :
    (w : Bool) (g : Option ApiEnvironment)
    → (enabled_is w g ≡ true) ↔ (g ≡ some (record { enabled = w }))
enabled_is_iff w none = ground arith
enabled_is_iff w (some g) = ground arith

environment_up_to_date_iff :
    (w : Option Bool) (g : Option ApiEnvironment)
    → (environment_up_to_date w g ≡ true) ↔ EnabledIs w g
environment_up_to_date_iff none g = ground arith
environment_up_to_date_iff (some w) g = enabled_is_iff w g

environments_loop_iff :
    (want : List (String × FeatureEnvironment)) (got : List (String × ApiEnvironment))
    → (environments_loop want got ≡ true) ↔ EnvironmentsMatch want got
unfolding environments_loop
environments_loop_iff [] got = ground arith
environments_loop_iff ((k, w) ∷ want) got =
    ground
      (arith, environment_up_to_date_iff w.enabled (lookup k got), environments_loop_iff want got)

module _ {Float : Type 0} ⦃N : FloatOps Float⦄ where
  pub rule_up_to_date_iff :
      (w : FeatureRule) (g : ApiRule Float) → (rule_up_to_date w g ≡ true) ↔ RuleMatches w g
  unfolding rule_up_to_date
  rule_up_to_date_iff w g = ground (
    arith,
    eq_iff w.type g.type,
    id_differs_iff w.id g.id,
    eq_iff (deref_string w.condition) g.condition,
    saved_groups_up_to_date_iff w.saved_groups g.saved_groups,
    environments_rule_up_to_date_iff w g,
    rule_value_up_to_date_iff w g,
  )

  pub rules_up_to_date_iff :
      (want : Option (List FeatureRule)) (got : Option (List (ApiRule Float)))
      → (rules_up_to_date want got ≡ true) ↔ RulesMatch want got
  unfolding rules_up_to_date
  rules_up_to_date_iff none got = ground arith
  rules_up_to_date_iff (some want) got =
      ground (arith, pairwise_iff rule_up_to_date RuleMatches rule_up_to_date_iff want (elems got))

  metadata_up_to_date_iff :
      (p : FeatureParameters) (ext : ApiFeature Float)
      → (metadata_up_to_date p ext ≡ true) ↔ (
          Agrees p.description ext.description
          × Agrees p.project ext.project
          × Agrees p.archived ext.archived
          × Agrees p.owner ext.owner
          × AgreesAsSet p.tags ext.tags)
  unfolding metadata_up_to_date ownership_up_to_date
  metadata_up_to_date_iff p ext = ground (
    arith,
    text_differs_iff p.description ext.description,
    text_differs_iff p.project ext.project,
    flag_differs_iff p.archived ext.archived,
    text_differs_iff p.owner ext.owner,
    set_differs_iff p.tags ext.tags,
  )

  -- A Feature is up to date exactly when value type and default value are the observed ones, each
  -- optional field that the user set has the observed value (tags up to their order), each
  -- environment that the user switched is reported with that switch, and the rules, unless they are
  -- nil, match the observed ones in order.
  pub is_up_to_date_iff :
      (p : FeatureParameters) (ext : ApiFeature Float)
      → (is_up_to_date p ext ≡ true) ↔ FeatureMatches p ext
  unfolding is_up_to_date value_up_to_date environments_up_to_date
  is_up_to_date_iff p ext = ground (
    arith,
    eq_iff p.value_type ext.value_type,
    eq_iff p.default_value ext.default_value,
    metadata_up_to_date_iff p ext,
    environments_loop_iff (elems p.environments) (elems ext.environments),
    rules_up_to_date_iff p.rules ext.rules,
  )
