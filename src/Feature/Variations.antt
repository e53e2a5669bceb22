-- ===== src/Feature/Variations.antt =====
-- `variationsUpToDate` of internal/controller/feature/rules_drift.go: when the ids are distinct, the
-- comparison ignores the order and nothing else.
use mathlib.Core.List.{
  Mem, Nodup, Nodup-cons, Perm, Subset, mem-cons, mem-cons_self, mem-cons_of_mem, not-mem-nil,
  cons-subset, nil-subset,
}
use mathlib.Core.List.Perm
use mathlib.Core.List.Pairwise
use mathlib.Core.List.Nodup
use mathlib.Core.List.Subperm
use mathlib.Core.Logic.Or
use mathlib.Core.Nat.{le_of_eq}
use provider_growthbook.Base.{
  String, true, Option, none, some, List, [], ◌∷◌, map, ◌≡◌, ◌≢◌, refl, sym, ap, ◌∙◌, ◌↔◌, subst,
  arith, string_eq, ==_refl, Option-cases, inl, inr,
}
use provider_growthbook.Base.Lists.{elems, All, length-map, unary_length_of_length, length_of_perm}
use provider_growthbook.Apis.Feature.{FeatureRuleVariation}
use provider_growthbook.Growthbook.Feature.{FeatureRuleVariation as ApiVariation}
use provider_growthbook.Feature.RulesConvert.{variation_request}
use provider_growthbook.Feature.RulesDrift.{last_value, variations_up_to_date}
use provider_growthbook.Feature.DriftLaws.{variations_up_to_date_iff}
use text.Mathlib.TextEquality.{eq_iff, IsScalar-prop}

abbrev ids : List ApiVariation → List String
ids = map (λ v. v.variation_id)

-- No two of the desired variations have one id.
abbrev pub DistinctIds : List FeatureRuleVariation → Type 0
DistinctIds w = Nodup (map (λ v. v.variation_id) w)

ids-request :
    (w : List FeatureRuleVariation) → ids (map variation_request w) ≡ map (λ v. v.variation_id) w
ids-request [] = refl
ids-request (v ∷ w) = ap (◌∷◌ v.variation_id) (ids-request w)

abbrev entry : String → String → ApiVariation
entry k x = record { variation_id = k; value = x }

mem_of_last_value :
    (k : String) (g : List ApiVariation) (x : String) → last_value k g ≡ some x → Mem (entry k x) g
unfolding last_value
mem_of_last_value k [] x h = ground arith
mem_of_last_value k (v ∷ g) x h = elim (Option-cases (last_value k g)) [
  | inl absent ↦
      let same : v ≡ entry k x = ground (arith, eq_iff v.variation_id k) in
      subst (λ u. Mem (entry k x) (u ∷ g)) (sym same) mem-cons_self
  | inr (y, found) ↦ mem-cons_of_mem v (mem_of_last_value k g x (ground arith))
]

last_value_of_absent :
    (k : String) (g : List ApiVariation) → ¬ Mem k (ids g) → last_value k g ≡ none
unfolding last_value
last_value_of_absent k [] h = refl
last_value_of_absent k (v ∷ g) h =
    let other : v.variation_id ≢ k =
      λ e. h (subst (λ j. Mem k (j ∷ ids g)) (sym e) mem-cons_self) in
    ground (
      arith,
      eq_iff v.variation_id k,
      last_value_of_absent k g (λ m. h (mem-cons_of_mem v.variation_id m)),
    )

last_value_of_mem :
    (u : ApiVariation) (g : List ApiVariation)
    → Nodup (ids g)
    → Mem u g
    → last_value u.variation_id g ≡ some u.value
unfolding last_value
last_value_of_mem u [] n m = absurd (not-mem-nil m)
last_value_of_mem u (v ∷ g) n m =
    let (fresh, distinct) = Nodup-cons.0 n in
    Or.elim (hlevel IsScalar-prop) (mem-cons.0 m)
      (λ e.
        subst (λ t. last_value t.variation_id (v ∷ g) ≡ some t.value) (sym e)
          (rw (last_value_of_absent v.variation_id g fresh, ==_refl v.variation_id)))
      (λ later. rw (last_value_of_mem u g distinct later))

found-subset :
    (w : List FeatureRuleVariation) (g : List ApiVariation)
    → All (λ v. last_value v.variation_id g ≡ some v.value) w
    → Subset (map variation_request w) g
found-subset [] g h = nil-subset g
found-subset (v ∷ w) g (found, h) =
    cons-subset.1 (mem_of_last_value v.variation_id g v.value found, found-subset w g h)

Nodup-request : (w : List FeatureRuleVariation) → DistinctIds w → Nodup (map variation_request w)
Nodup-request w n =
    Pairwise.of_map {S = ◌≢◌} (λ (u : ApiVariation). u.variation_id)
      (λ a b ne e. ne (ap (λ (u : ApiVariation). u.variation_id) e)) (rw (ids-request w) n)

found_of_mem :
    (w : List FeatureRuleVariation) (g : List ApiVariation)
    → Nodup (ids g)
    → Subset (map variation_request w) g
    → All (λ v. last_value v.variation_id g ≡ some v.value) w
found_of_mem [] g n s = tt
found_of_mem (v ∷ w) g n s =
    let (here, later) = cons-subset.0 s in
    (last_value_of_mem (variation_request v) g n here, found_of_mem w g n later)

-- When no two desired variations have one id, the observed variations are up to date exactly when
-- they are a rearrangement of what the provider would send.
pub variations_up_to_date-iff_perm :
    (w : Option (List FeatureRuleVariation)) (g : Option (List ApiVariation))
    → DistinctIds (elems w)
    → (variations_up_to_date w g ≡ true) ↔ Perm (map variation_request (elems w)) (elems g)
variations_up_to_date-iff_perm w g n = (
  λ h.
      let (size, found) = (variations_up_to_date_iff w g).0 h in
      Subperm.perm_of_length_le
        (Nodup.subperm (Nodup-request (elems w) n) (found-subset (elems w) (elems g) found))
        (le_of_eq (
          unary_length_of_length (elems g) (map variation_request (elems w))
            (sym size ∙ sym (length-map variation_request (elems w))))),
  λ p. (variations_up_to_date_iff w g).1 (
    sym (length-map variation_request (elems w)) ∙ length_of_perm p,
    found_of_mem (elems w) (elems g)
        (Perm.nodup (Perm.map (λ (u : ApiVariation). u.variation_id) p)
          (rw (ids-request (elems w)) n))
        (Perm.subset p),
  ),
)
