-- ===== src/Feature/Converge.antt =====
-- Lemmas on the rules that `updateRequest` of internal/controller/feature sends and how they are
-- stored.
use mathlib.Core.List.{Perm}
use provider_growthbook.Base.{
  String, Bool, true, false, Option, none, some, List, [], ◌∷◌, map, ◌≡◌, ◌≢◌, refl, sym, ◌∙◌,
  arith, subst, ap,
}
use provider_growthbook.Base.Lists.{elems, All, Pointwise}
use provider_growthbook.Base.Float.{FloatOps, float_eq}
use provider_growthbook.Apis.Feature.{FeatureRule, SavedGroupTargeting, FeatureRuleVariation}
use provider_growthbook.Growthbook.Feature.{
  FeatureRule as ApiRule, FeatureSavedGroupTargeting, FeatureRuleVariation as ApiVariation,
}
use provider_growthbook.Feature.RulesConvert.{
  deref_string, deref_bool, saved_group_request, saved_groups_request, variation_request,
  variations_request, rule_base,
}
use provider_growthbook.Feature.RulesRequest.{
  TextSent, ScopeSent, GroupSent, VariationSent, ListSent, CoverageSent, RuleSent,
}
use provider_growthbook.Feature.Matches.{
  Agrees, GroupMatches, ScopeMatches, CoverageMatches, CoverageIs, RuleMatches,
}
use provider_growthbook.Feature.Variations.{DistinctIds, variations_up_to_date-iff_perm}
use provider_growthbook.Feature.DriftLaws.{variations_up_to_date_iff}
use provider_growthbook.Feature.Service.{GroupStored, RuleStored}

module _ {Float : Type 0} (N : FloatOps Float) where
  abbrev pub EqualsItself : Option Float → Type 0
  EqualsItself none = Unit
  EqualsItself (some f) = N.float_eq f f ≡ true

  abbrev pub CoverageIsSane : Option String → Type 0
  CoverageIsSane none = Unit
  CoverageIsSane (some s) = EqualsItself (N.parse_float s)

  -- A rule that can be reconciled: its coverage is not NaN, an id that is set is not empty, and no
  -- two variations have one id.
  pub record IsSane (r : FeatureRule) : Type 0 where
    pub coverage : CoverageIsSane r.coverage
    pub id : r.id ≢ some ""
    pub variations : DistinctIds (elems r.variations)

groups_match :
    (w : List SavedGroupTargeting) (g : List FeatureSavedGroupTargeting)
    → Pointwise GroupStored (map saved_group_request w) g
    → Pointwise GroupMatches w g
groups_match [] [] h = tt
groups_match [] (x ∷ g) h = h
groups_match (w ∷ ws) [] h = h
groups_match (w ∷ ws) (g ∷ gs) (here, later) = (here, groups_match ws gs later)

saved_groups_match :
    (w : Option (List SavedGroupTargeting)) (g : List FeatureSavedGroupTargeting)
    → Pointwise GroupStored (elems (saved_groups_request w)) g
    → Pointwise GroupMatches (elems w) g
unfolding saved_groups_request
saved_groups_match none g h = groups_match [] g h
saved_groups_match (some w) g h = groups_match w g h

scope_matches :
    (b : Bool) (w : Option (List String)) (all : Bool) (g : Option (List String))
    → b ≡ all
    → Perm (elems w) (elems g)
    → ScopeMatches b w all g
scope_matches true w all g e p = sym e
scope_matches false w all g e p = (sym e, p)

id-Agrees :
    (w : Option String) (id : String)
    → w ≢ some ""
    → (deref_string w ≢ "" → deref_string w ≡ id)
    → Agrees w id
id-Agrees none id h k = tt
id-Agrees (some s) id h k = k (λ e. h (ground arith))

elems-variations :
    (vs : Option (List FeatureRuleVariation))
    → elems (variations_request vs) ≡ map variation_request (elems vs)
unfolding variations_request
elems-variations none = refl
elems-variations (some vs) = refl

TextSent-deref_string : (o : Option String) (v : String) → TextSent o v → v ≡ deref_string o
TextSent-deref_string none v h = h
TextSent-deref_string (some s) v h = h

ScopeSent-deref_bool : (o : Option Bool) (b : Bool) → ScopeSent o b → b ≡ deref_bool o
ScopeSent-deref_bool none b h = h
ScopeSent-deref_bool (some s) b h = h

GroupSent-map :
    (w : List SavedGroupTargeting) (s : List FeatureSavedGroupTargeting)
    → Pointwise GroupSent w s
    → s ≡ map saved_group_request w
GroupSent-map [] [] h = refl
GroupSent-map [] (x ∷ s) h = absurd h
GroupSent-map (g ∷ w) [] h = absurd h
GroupSent-map (g ∷ w) (x ∷ s) ((match, ids), later) =
    λ i. record { match = match i; ids = ids i } ∷ GroupSent-map w s later i

VariationSent-map :
    (w : List FeatureRuleVariation) (s : List ApiVariation)
    → Pointwise VariationSent w s
    → s ≡ map variation_request w
VariationSent-map [] [] h = refl
VariationSent-map [] (x ∷ s) h = absurd h
VariationSent-map (g ∷ w) [] h = absurd h
VariationSent-map (g ∷ w) (x ∷ s) ((id, value), later) =
    λ i. record { variation_id = id i; value = value i } ∷ VariationSent-map w s later i

ListSent-saved_groups_request :
    (o : Option (List SavedGroupTargeting)) (s : Option (List FeatureSavedGroupTargeting))
    → ListSent GroupSent o s
    → s ≡ saved_groups_request o
unfolding saved_groups_request
ListSent-saved_groups_request none s h = h
ListSent-saved_groups_request (some w) none h = absurd h
ListSent-saved_groups_request (some w) (some s) h = ap some (GroupSent-map w s h)

ListSent-variations_request :
    (o : Option (List FeatureRuleVariation)) (s : Option (List ApiVariation))
    → ListSent VariationSent o s
    → s ≡ variations_request o
unfolding variations_request
ListSent-variations_request none s h = h
ListSent-variations_request (some w) none h = absurd h
ListSent-variations_request (some w) (some s) h = ap some (VariationSent-map w s h)

module _ {Float : Type 0} ⦃N : FloatOps Float⦄ where
  RuleSent-rule_base :
      (r : FeatureRule) (s : ApiRule Float) → RuleSent r s → s ≡ rule_base r s.coverage
  RuleSent-rule_base r s h = λ i. record {
    type = h.type i;
    id = TextSent-deref_string r.id s.id h.id i;
    description = TextSent-deref_string r.description s.description h.description i;
    enabled = h.enabled i;
    condition = TextSent-deref_string r.condition s.condition h.condition i;
    saved_groups = ListSent-saved_groups_request r.saved_groups s.saved_groups h.saved_groups i;
    all_environments =
        ScopeSent-deref_bool r.all_environments s.all_environments h.all_environments i;
    environments = h.environments i;
    value = TextSent-deref_string r.value s.value h.value i;
    coverage = s.coverage;
    hash_attribute = TextSent-deref_string r.hash_attribute s.hash_attribute h.hash_attribute i;
    experiment_id = TextSent-deref_string r.experiment_id s.experiment_id h.experiment_id i;
    variations = ListSent-variations_request r.variations s.variations h.variations i;
  }

module _ {Float : Type 0} ⦃N : FloatOps Float⦄ where
  pub number_matches :
      (o g : Option Float) (f : Float) → o ≡ some f → g ≡ some f → EqualsItself N o → CoverageIs o g
  number_matches none g f p q h = ground arith
  number_matches (some e) none f p q h = ground arith
  number_matches (some e) (some d) f p q h =
      let same : e ≡ d = ground arith in subst (λ x. float_eq e x ≡ true) same h

  pub coverage_matches :
      (w : Option String) (c g : Option Float)
      → CoverageSent N w c
      → CoverageIsSane N w
      → c ≡ g
      → CoverageMatches w g
  coverage_matches none c none s h e = tt
  coverage_matches none c (some g) s h e = ground arith
  coverage_matches (some w) c g (f, parsed, sent) h e =
      number_matches (N.parse_float w) g f parsed (sym e ∙ sent) h

  rule_base-RuleMatches :
      (r : FeatureRule) (c : Option Float) (g : ApiRule Float)
      → CoverageSent N r.coverage c
      → IsSane N r
      → RuleStored (rule_base r c) g
      → RuleMatches r g
  rule_base-RuleMatches r c g sent sane stored = record {
    type = stored.type;
    id = id-Agrees r.id g.id sane.id stored.id;
    enabled = stored.enabled;
    condition = stored.condition;
    saved_groups = saved_groups_match r.saved_groups (elems g.saved_groups) stored.saved_groups;
    scope =
        scope_matches (deref_bool r.all_environments) r.environments g.all_environments
          g.environments stored.all_environments stored.environments;
    value = stored.value;
    hash_attribute = stored.hash_attribute;
    experiment_id = stored.experiment_id;
    coverage = coverage_matches r.coverage c g.coverage sent sane.coverage stored.coverage;
    variations = (variations_up_to_date_iff r.variations g.variations).0 (
        (variations_up_to_date-iff_perm r.variations g.variations sane.variations).1 (
          subst (λ l. Perm l (elems g.variations)) (elems-variations r.variations)
            stored.variations));
  }

  Pointwise-nil :
      (got : List (ApiRule Float))
      → Pointwise (RuleStored {Float = Float}) [] got
      → Pointwise RuleMatches [] got
  Pointwise-nil [] k = tt
  Pointwise-nil (g ∷ got) k = k

  pub rules_match :
      (rules : List FeatureRule) (sent got : List (ApiRule Float))
      → All (IsSane N) rules
      → Pointwise RuleSent rules sent
      → Pointwise RuleStored sent got
      → Pointwise RuleMatches rules got
  rules_match [] [] got sane h k = Pointwise-nil got k
  rules_match [] (s ∷ sent) got sane h k = absurd h
  rules_match (r ∷ rules) [] got sane h k = absurd h
  rules_match (r ∷ rules) (s ∷ sent) [] sane h k = k
  rules_match (r ∷ rules) (s ∷ sent) (g ∷ got) (fine, sane) (h, hs) (k, ks) = (
    rule_base-RuleMatches r s.coverage g h.coverage fine
        (subst (λ t. RuleStored t g) (RuleSent-rule_base r s h) k),
    rules_match rules sent got sane hs ks,
  )
