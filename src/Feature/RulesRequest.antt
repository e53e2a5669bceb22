-- ===== src/Feature/RulesRequest.antt =====
-- `rulesRequest` of internal/controller/feature/rules_convert.go: what is sent, and which error is
-- returned.
use provider_growthbook.Base.{
  ℕ, zero, suc, ap, ◌+◌, String, Bool, false, map, Option, none, some, List, [], ◌∷◌, ◌≡◌, refl,
  arith,
}
use provider_growthbook.Base.Lists.{Pointwise}
use provider_growthbook.Base.Float.{FloatOps}
use provider_growthbook.Apis.Feature.{FeatureRule, SavedGroupTargeting, FeatureRuleVariation}
use provider_growthbook.Growthbook.Errors.{
  Result, ok, err, Error, ◌>>=◌, wrapped, wrapped_at, plain,
}
use provider_growthbook.Growthbook.Feature.{
  FeatureRule as ApiRule, FeatureSavedGroupTargeting, FeatureRuleVariation as ApiVariation,
}
use provider_growthbook.Feature.RulesConvert.{
  deref_string, deref_bool, saved_group_request, saved_groups_request, variation_request,
  variations_request, coverage_of, parse_coverage, at_index, rule_base, rule_request, rules_from,
  rules_request,
}

abbrev pub coverage_error : Error
coverage_error = wrapped "coverage is not a decimal" (plain "strconv.ParseFloat")

abbrev pub TextSent : Option String → String → Type 0
TextSent none sent = sent ≡ ""
TextSent (some s) sent = sent ≡ s

abbrev pub ScopeSent : Option Bool → Bool → Type 0
ScopeSent none sent = sent ≡ false
ScopeSent (some b) sent = sent ≡ b

abbrev pub GroupSent : SavedGroupTargeting → FeatureSavedGroupTargeting → Type 0
GroupSent w sent = (sent.match ≡ w.match) × (sent.ids ≡ w.ids)

abbrev pub VariationSent : FeatureRuleVariation → ApiVariation → Type 0
VariationSent w sent = (sent.variation_id ≡ w.variation_id) × (sent.value ≡ w.value)

-- A list that is set is sent element by element, in order, and one that is not set is not sent.
abbrev pub ListSent : {A B : Type 0} → (A → B → Type 0) → Option (List A) → Option (List B) → Type 0
ListSent R none sent = sent ≡ none
ListSent R (some w) none = ⊥
ListSent R (some w) (some sent) = Pointwise R w sent

text_sent : (o : Option String) → TextSent o (deref_string o)
text_sent none = refl
text_sent (some s) = refl

scope_sent : (o : Option Bool) → ScopeSent o (deref_bool o)
scope_sent none = refl
scope_sent (some b) = refl

groups_sent : (w : List SavedGroupTargeting) → Pointwise GroupSent w (map saved_group_request w)
groups_sent [] = tt
groups_sent (g ∷ w) = ((refl, refl), groups_sent w)

saved_groups_sent :
    (o : Option (List SavedGroupTargeting)) → ListSent GroupSent o (saved_groups_request o)
unfolding saved_groups_request
saved_groups_sent none = refl
saved_groups_sent (some w) = groups_sent w

variation_list_sent :
    (w : List FeatureRuleVariation) → Pointwise VariationSent w (map variation_request w)
variation_list_sent [] = tt
variation_list_sent (v ∷ w) = ((refl, refl), variation_list_sent w)

variations_sent :
    (o : Option (List FeatureRuleVariation)) → ListSent VariationSent o (variations_request o)
unfolding variations_request
variations_sent none = refl
variations_sent (some w) = variation_list_sent w

module _ {Float : Type 0} (N : FloatOps Float) where
  -- The coverage is set and is no decimal.
  abbrev pub BadCoverage : Option String → Type 0
  BadCoverage none = ⊥
  BadCoverage (some s) = N.parse_float s ≡ none

  -- What `strconv.ParseFloat` makes of the coverage that is set.
  abbrev pub CoverageSent : Option String → Option Float → Type 0
  CoverageSent none g = g ≡ none
  CoverageSent (some s) g = (f : Float) × (N.parse_float s ≡ some f) × (g ≡ some f)

  -- The rule at index `i` is the first one with a coverage that is no decimal.
  abbrev pub FirstBad : List FeatureRule → ℕ → Type 0
  FirstBad [] i = ⊥
  FirstBad (r ∷ rules) zero = BadCoverage r.coverage
  FirstBad (r ∷ rules) (suc i) = ((c : Option Float) × CoverageSent r.coverage c) × FirstBad rules i

  abbrev CoverageOutcome : Option String → Result (Option Float) → Type 0
  CoverageOutcome c (ok g) = CoverageSent c g
  CoverageOutcome c (err e) = BadCoverage c × (e ≡ coverage_error)

module _ {Float : Type 0} ⦃N : FloatOps Float⦄ where
  -- The rule on the wire: each field is sent, a text that is unset as the empty text, an unset scope as
  -- not all environments, and the coverage as a number.
  pub record RuleSent (r : FeatureRule) (gr : ApiRule Float) : Type 0 where
    pub type : gr.type ≡ r.type
    pub id : TextSent r.id gr.id
    pub description : TextSent r.description gr.description
    pub enabled : gr.enabled ≡ r.enabled
    pub condition : TextSent r.condition gr.condition
    pub saved_groups : ListSent GroupSent r.saved_groups gr.saved_groups
    pub all_environments : ScopeSent r.all_environments gr.all_environments
    pub environments : gr.environments ≡ r.environments
    pub value : TextSent r.value gr.value
    pub coverage : CoverageSent N r.coverage gr.coverage
    pub hash_attribute : TextSent r.hash_attribute gr.hash_attribute
    pub experiment_id : TextSent r.experiment_id gr.experiment_id
    pub variations : ListSent VariationSent r.variations gr.variations

  abbrev RuleOutcome : FeatureRule → Result (ApiRule Float) → Type 0
  RuleOutcome r (ok gr) = RuleSent r gr
  RuleOutcome r (err e) = BadCoverage N r.coverage × (e ≡ coverage_error)

  abbrev FromOutcome : ℕ → List FeatureRule → Result (List (ApiRule Float)) → Type 0
  FromOutcome i rules (ok out) = Pointwise RuleSent rules out
  FromOutcome i rules (err e) =
      (j : ℕ) × FirstBad N rules j × (e ≡ wrapped_at "rule" (j + i) coverage_error)

  -- Rules left nil are not sent. Others are all sent, in order, or the error names the first rule
  -- whose coverage is no decimal.
  abbrev pub RulesOutcome :
      Option (List FeatureRule) → Result (Option (Option (List (ApiRule Float)))) → Type 0
  RulesOutcome none (ok sent) = sent ≡ none
  RulesOutcome none (err e) = ⊥
  RulesOutcome (some rules) (ok sent) =
      (out : List (ApiRule Float)) × (sent ≡ some (some out)) × Pointwise RuleSent rules out
  RulesOutcome (some rules) (err e) =
      (j : ℕ) × FirstBad N rules j × (e ≡ wrapped_at "rule" j coverage_error)

  rule_base-RuleSent :
      (r : FeatureRule) (c : Option Float)
      → CoverageSent N r.coverage c
      → RuleSent r (rule_base r c)
  rule_base-RuleSent r c h = record {
    type = refl;
    id = text_sent r.id;
    description = text_sent r.description;
    enabled = refl;
    condition = text_sent r.condition;
    saved_groups = saved_groups_sent r.saved_groups;
    all_environments = scope_sent r.all_environments;
    environments = refl;
    value = text_sent r.value;
    coverage = h;
    hash_attribute = text_sent r.hash_attribute;
    experiment_id = text_sent r.experiment_id;
    variations = variations_sent r.variations;
  }

  rule_of_coverage :
      (r : FeatureRule) (m : Result (Option Float))
      → CoverageOutcome N r.coverage m
      → RuleOutcome r (m >>= λ c. ok (rule_base r c))
  rule_of_coverage r (ok c) h = rule_base-RuleSent r c h
  rule_of_coverage r (err e) h = h

  cons_outcome :
      (i : ℕ) (r : FeatureRule) (rules : List FeatureRule) (m : Result (ApiRule Float))
      (rest : Result (List (ApiRule Float)))
      → RuleOutcome r m
      → FromOutcome (suc i) rules rest
      → FromOutcome i (r ∷ rules) (at_index i m >>= λ gr. rest >>= λ out. ok (gr ∷ out))
  cons_outcome i r rules (err e) rest (bad, text) k =
      (zero, bad, rw text (ap (λ n. wrapped_at "rule" n coverage_error) (omega arith)))
  cons_outcome i r rules (ok gr) (ok out) h k = (h, k)
  cons_outcome i r rules (ok gr) (err e) h (j, bad, text) = (
    suc j,
    ((gr.coverage, h.coverage), bad),
    rw text (ap (λ n. wrapped_at "rule" n coverage_error) (omega arith)),
  )

  whole_outcome :
      (rules : List FeatureRule) (m : Result (List (ApiRule Float)))
      → FromOutcome 0 rules m
      → RulesOutcome (some rules) (m >>= λ out. ok (some (some out)))
  whole_outcome rules (ok out) h = (out, refl, h)
  whole_outcome rules (err e) (j, bad, text) =
      (j, bad, rw text (ap (λ n. wrapped_at "rule" n coverage_error) (omega arith)))

module _ (Float : Type 0) ⦃N : FloatOps Float⦄ where
  coverage_of-outcome :
      (s : String) (o : Option Float)
      → N.parse_float s ≡ o
      → CoverageOutcome N (some s) (coverage_of o)
  coverage_of-outcome s none bad = (bad, refl)
  coverage_of-outcome s (some f) good = (f, good, refl)

  parse_coverage-outcome :
      (c : Option String) → CoverageOutcome N c (parse_coverage {Float = Float} c)
  parse_coverage-outcome none = refl
  parse_coverage-outcome (some s) = coverage_of-outcome s (N.parse_float s) refl

  rule_request-outcome : (r : FeatureRule) → RuleOutcome {Float = Float} r (rule_request r)
  unfolding rule_request
  rule_request-outcome r =
      rule_of_coverage r (parse_coverage r.coverage) (parse_coverage-outcome r.coverage)

  rules_from-outcome :
      (i : ℕ) (rules : List FeatureRule) → FromOutcome {Float = Float} i rules (rules_from i rules)
  unfolding rules_from
  rules_from-outcome i [] = tt
  rules_from-outcome i (r ∷ rules) =
      cons_outcome i r rules (rule_request r) (rules_from (suc i) rules) (rule_request-outcome r)
        (rules_from-outcome (suc i) rules)

  -- Rules left nil are not sent. Otherwise either each rule is sent at its place with every field of
  -- it, unset texts empty and its coverage parsed, or some coverage is no decimal and the error
  -- carries the index of the first such rule.
  pub rules_request-outcome :
      (rules : Option (List FeatureRule)) → RulesOutcome {Float = Float} rules (rules_request rules)
  unfolding rules_request
  rules_request-outcome none = refl
  rules_request-outcome (some rules) =
      whole_outcome rules (rules_from 0 rules) (rules_from-outcome 0 rules)
