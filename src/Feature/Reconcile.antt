-- ===== src/Feature/Reconcile.antt =====
-- `updateRequest` and `isUpToDate` of internal/controller/feature, over a service that stores what it
-- is sent.
use mathlib.Core.List.{Perm}
use mathlib.Core.List.Perm
use provider_growthbook.Base.{
  String, Bool, true, false, Option, none, some, List, [], ◌∷◌, map, ◌≡◌, ◌≢◌, ◌⊎◌, inl, inr, refl,
  sym, ◌∙◌, arith, subst, Bool-cases, ◌==◌, string_eq, ap, ==→≡,
}
use provider_growthbook.Base.Lists.{elems, All, lookup}
use provider_growthbook.Base.Float.{FloatOps}
use provider_growthbook.Apis.Feature.{FeatureRule, FeatureParameters, FeatureEnvironment}
use provider_growthbook.Growthbook.Errors.{Result, ok, err, ◌>>=◌}
use provider_growthbook.Growthbook.Feature.{
  FeatureRule as ApiRule, Feature as ApiFeature, FeatureRequest,
  FeatureEnvironment as ApiEnvironment,
}
use provider_growthbook.Feature.RulesConvert.{rules_request}
use provider_growthbook.Feature.RulesRequest.{RulesOutcome, rules_request-outcome}
use provider_growthbook.Feature.Matches.{
  Agrees, AgreesAsSet, EnabledIs, EnvironmentsMatch, RulesMatch, FeatureMatches,
}
use provider_growthbook.Feature.Service.{
  TextPatched, FieldPatched, SetPatched, SwitchPatched, EnvironmentsPatched, RulesPatched,
  IsPatched,
}
use provider_growthbook.Feature.Convert.{
  update_body, update_request, environment_request, environments_request, is_up_to_date,
}
use provider_growthbook.Feature.Converge.{IsSane, rules_match}
use provider_growthbook.Feature.UpToDate.{is_up_to_date_iff}
use text.Mathlib.TextEquality.{eq_iff}

pub field-Agrees : {A : Type 0} (p : Option A) (old new : A) → FieldPatched p old new → Agrees p new
field-Agrees none old new h = tt
field-Agrees (some v) old new h = sym h

pub text_agrees : (p old new : String) → (p ≡ "" → old ≡ "") → TextPatched p old new → p ≡ new
text_agrees p old new fits (kept, stored) = elim (Bool-cases (p == "")) [
  | inl empty ↦ let e : p ≡ "" = ==→≡ p "" empty in e ∙ sym (fits e) ∙ sym (kept e)
  | inr full ↦ sym (stored (ground (arith, eq_iff p "")))
]

pub set_agrees :
    (p old new : Option (List String))
    → (p ≡ some [] → elems old ≡ [])
    → SetPatched p old new
    → AgreesAsSet p new
set_agrees none old new fits h = tt
set_agrees (some []) old new fits h = subst (λ l. Perm [] l) (sym (ap elems h ∙ fits refl)) Perm.rfl
set_agrees (some (x ∷ xs)) old new fits h = h

switch_agrees : (w : Option Bool) (g : Option ApiEnvironment) → SwitchPatched w g → EnabledIs w g
switch_agrees none g h = tt
switch_agrees (some b) g h = h

environments_agree :
    (want : List (String × FeatureEnvironment)) (new : List (String × ApiEnvironment))
    → EnvironmentsPatched (map environment_request want) new
    → EnvironmentsMatch want new
environments_agree [] new h = tt
environments_agree ((k, w) ∷ want) new (here, later) =
    (switch_agrees w.enabled (lookup k new) here, environments_agree want new later)

all_environments_agree :
    (want : Option (List (String × FeatureEnvironment))) (new : List (String × ApiEnvironment))
    → EnvironmentsPatched (elems (environments_request want)) new
    → EnvironmentsMatch (elems want) new
unfolding environments_request
all_environments_agree none new h = tt
all_environments_agree (some want) new h = environments_agree want new h

module _ {Float : Type 0} ⦃N : FloatOps Float⦄ where
  -- What Update cannot mend is right already, and the rules can be reconciled.
  pub record CanConverge (p : FeatureParameters) (old : ApiFeature Float) : Type 0 where
    pub value_type : p.value_type ≡ old.value_type
    pub default_value : p.default_value ≡ "" → old.default_value ≡ ""
    pub tags : p.tags ≡ some [] → elems old.tags ≡ []
    pub rules : All (IsSane N) (elems p.rules)

  rules_agree :
      (rules : Option (List FeatureRule)) (sent : Option (Option (List (ApiRule Float))))
      (old new : Option (List (ApiRule Float)))
      → All (IsSane N) (elems rules)
      → RulesOutcome rules (ok sent)
      → RulesPatched sent old new
      → RulesMatch rules new
  rules_agree none sent old new sane h k = tt
  rules_agree (some rules) sent old new sane (out, e, h) k =
      rules_match rules out (elems new) sane h (subst (λ s. RulesPatched s old new) e k)

  patched-FeatureMatches :
      (p : FeatureParameters) (sent : Option (Option (List (ApiRule Float))))
      (old new : ApiFeature Float)
      → CanConverge p old
      → RulesOutcome p.rules (ok sent)
      → IsPatched (update_body p sent) old new
      → FeatureMatches p new
  patched-FeatureMatches p sent old new can h patched = record {
    value_type = can.value_type ∙ sym patched.value_type;
    default_value =
        text_agrees p.default_value old.default_value new.default_value can.default_value
          patched.default_value;
    description = field-Agrees p.description old.description new.description patched.description;
    project = field-Agrees p.project old.project new.project patched.project;
    archived = field-Agrees p.archived old.archived new.archived patched.archived;
    owner = field-Agrees p.owner old.owner new.owner patched.owner;
    tags = set_agrees p.tags old.tags new.tags can.tags patched.tags;
    environments =
        all_environments_agree p.environments (elems new.environments) patched.environments;
    rules = rules_agree p.rules sent old.rules new.rules can.rules h patched.rules;
  }

  update_outcome :
      (p : FeatureParameters) (m : Result (Option (Option (List (ApiRule Float)))))
      (req : FeatureRequest Float)
      → (m >>= λ rules. ok (update_body p rules)) ≡ ok req
      → (sent : Option (Option (List (ApiRule Float)))) × (m ≡ ok sent) × (req ≡ update_body p sent)
  update_outcome p (ok sent) req h = (sent, refl, ground arith)
  update_outcome p (err e) req h = ground arith

  update_request-body :
      (p : FeatureParameters) (req : FeatureRequest Float)
      → update_request p ≡ ok req
      → (sent : Option (Option (List (ApiRule Float)))) × RulesOutcome p.rules (ok sent)
        × (req ≡ update_body p sent)
  unfolding update_request
  update_request-body p req h =
      let (sent, e, body) = update_outcome p (rules_request p.rules) req h in
      (sent, subst (RulesOutcome p.rules) e (rules_request-outcome Float p.rules), body)

  -- Once the service has stored what Update sends, the next Observe finds the feature up to date,
  -- provided that the value type was right, that an empty default value and an empty list of tags
  -- had nothing to clear, and that each rule has a coverage that is not NaN, an id that is unset or
  -- not empty, and no variation id twice.
  pub is_up_to_date-update_request :
      (p : FeatureParameters) (req : FeatureRequest Float) (old new : ApiFeature Float)
      → update_request p ≡ ok req
      → IsPatched req old new
      → CanConverge p old
      → is_up_to_date p new ≡ true
  is_up_to_date-update_request p req old new h patched can =
      let (sent, outcome, body) = update_request-body p req h in
      (is_up_to_date_iff p new).1 (
        patched-FeatureMatches p sent old new can outcome
          (subst (λ r. IsPatched r old new) body patched))

-- An empty list of tags that should clear stored ones, or an empty default value that should
-- replace another one.
abbrev pub WantsClearing : {Float : Type 0} → FeatureParameters → ApiFeature Float → Type 0
WantsClearing p old =
    ((p.tags ≡ some []) × (elems old.tags ≢ []))
    ⊎ ((p.default_value ≡ "") × (old.default_value ≢ ""))

cleared_tags :
    (p old new : Option (List String))
    → p ≡ some []
    → SetPatched p old new
    → AgreesAsSet p new
    → elems old ≡ []
cleared_tags none old new e h k = ground arith
cleared_tags (some []) old new e h k = ap elems (sym h) ∙ sym (Perm.nil-eq k)
cleared_tags (some (x ∷ xs)) old new e h k = ground arith

module _ {Float : Type 0} ⦃N : FloatOps Float⦄ where
  clearing_fails :
      (p : FeatureParameters) (sent : Option (Option (List (ApiRule Float))))
      (old new : ApiFeature Float)
      → WantsClearing p old
      → IsPatched (update_body p sent) old new
      → FeatureMatches p new
      → ⊥
  clearing_fails p sent old new (inl (empty, had)) patched m =
      had (cleared_tags p.tags old.tags new.tags empty patched.tags m.tags)
  clearing_fails p sent old new (inr (empty, had)) patched m =
      had (sym (patched.default_value.0 empty) ∙ sym m.default_value ∙ empty)

  -- An empty list of tags, or an empty default value, never takes effect: over a service that
  -- stores what it is sent, the feature is still out of date after the update.
  pub is_up_to_date-clearing :
      (p : FeatureParameters) (req : FeatureRequest Float) (old new : ApiFeature Float)
      → update_request p ≡ ok req
      → IsPatched req old new
      → WantsClearing p old
      → is_up_to_date p new ≡ false
  is_up_to_date-clearing p req old new h patched wants =
      let (sent, outcome, body) = update_request-body p req h in
      elim (Bool-cases (is_up_to_date p new)) [
        | inl fine ↦ absurd (
            clearing_fails p sent old new wants (subst (λ r. IsPatched r old new) body patched)
              ((is_up_to_date_iff p new).0 fine))
        | inr stale ↦ stale
      ]
