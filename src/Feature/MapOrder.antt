-- ===== src/Feature/MapOrder.antt =====
-- `isUpToDate` of internal/controller/feature/convert.go ranges over Go maps, whose order the
-- language leaves open.
use mathlib.Core.List.{Perm, Permᴰ, Nodup, Nodup-cons, Mem, mem-cons_self}
use mathlib.Core.List.Perm
use mathlib.Core.Logic.{∥∥₁_elim}
use mathlib.Core.Path.{ap₂}
use mathlib.Core.Bool.{Bool-set}
use provider_growthbook.Base.{
  String, Option, List, [], ◌∷◌, map, ◌≡◌, ◌≢◌, refl, sym, ◌∙◌, ap, subst, arith, string_eq, ==→≡,
}
use provider_growthbook.Base.Lists.{elems, lookup}
use provider_growthbook.Base.Float.{FloatOps}
use provider_growthbook.Apis.Feature.{FeatureParameters, FeatureEnvironment}
use provider_growthbook.Growthbook.Feature.{
  Feature as ApiFeature, FeatureEnvironment as ApiEnvironment,
}
use provider_growthbook.Feature.Convert.{
  environments_loop, environments_up_to_date, is_up_to_date, value_up_to_date, metadata_up_to_date,
  ownership_up_to_date,
}

module _ {V : Type 0} where
  -- The keys of a map; no two entries of a Go map have one key.
  abbrev pub keys : List (String × V) → List String
  keys = map (λ e. e.0)

  keys_perm : {m m' : List (String × V)} → Permᴰ m m' → Permᴰ (keys m) (keys m')
  keys_perm Permᴰ.nil = Permᴰ.nil
  keys_perm (Permᴰ.cons e d) = Permᴰ.cons (ap (λ x. x.0) e) (keys_perm d)
  keys_perm (Permᴰ.swap e₁ e₂) = Permᴰ.swap (ap (λ x. x.0) e₁) (ap (λ x. x.0) e₂)
  keys_perm (Permᴰ.trans d₁ d₂) = Permᴰ.trans (keys_perm d₁) (keys_perm d₂)

  lookup_head :
      (k : String) (a b : String × V) (m m' : List (String × V))
      → a ≡ b
      → lookup k m ≡ lookup k m'
      → lookup k (a ∷ m) ≡ lookup k (b ∷ m')
  lookup_head k (i, x) b m m' e h =
      subst (λ c. lookup k ((i, x) ∷ m) ≡ lookup k (c ∷ m')) e (ground arith)

  lookup_swap :
      (k : String) (a b : String × V) (m : List (String × V))
      → Nodup (keys (a ∷ b ∷ m))
      → lookup k (a ∷ b ∷ m) ≡ lookup k (b ∷ a ∷ m)
  lookup_swap k (i, x) (j, y) m n =
      let apart : i ≢ j =
        λ e. (Nodup-cons.0 n).0 (subst (λ s. Mem s (j ∷ keys m)) (sym e) mem-cons_self) in
      ground (arith, ==→≡ i k, ==→≡ j k)

  lookup_perm :
      {m m' : List (String × V)} (k : String)
      → Permᴰ m m'
      → Nodup (keys m)
      → lookup k m ≡ lookup k m'
  lookup_perm k Permᴰ.nil n = refl
  lookup_perm k (Permᴰ.cons {a = a} {b = b} {l₁ = l} {l₂ = l'} e d) n =
      lookup_head k a b l l' e (lookup_perm k d (Nodup-cons.0 n).1)
  lookup_perm k (Permᴰ.swap {a = a} {b = b} {l = l} e₁ e₂) n =
      lookup_swap k a b l n ∙ ap₂ (λ x y. lookup k (x ∷ y ∷ l)) e₂ e₁
  lookup_perm k (Permᴰ.trans {l₁ = l₁} {l₂ = l₂} {l₃ = l₃} d₁ d₂) n =
      lookup_perm k d₁ n ∙ lookup_perm k d₂ (Perm.nodup ∣ keys_perm d₁ ∣₁ n)

entries_first :
    (a b : String × FeatureEnvironment) (want want' : List (String × FeatureEnvironment))
    (got : List (String × ApiEnvironment))
    → a ≡ b
    → environments_loop want got ≡ environments_loop want' got
    → environments_loop (a ∷ want) got ≡ environments_loop (b ∷ want') got
unfolding environments_loop
entries_first (k, w) b want want' got e h =
    subst (λ c. environments_loop ((k, w) ∷ want) got ≡ environments_loop (c ∷ want') got) e
      (ground arith)

entries_swap :
    (a b : String × FeatureEnvironment) (want : List (String × FeatureEnvironment))
    (got : List (String × ApiEnvironment))
    → environments_loop (a ∷ b ∷ want) got ≡ environments_loop (b ∷ a ∷ want) got
unfolding environments_loop
entries_swap (k, w) (j, v) want got = ground arith

loop_perm :
    {want want' : List (String × FeatureEnvironment)} (got : List (String × ApiEnvironment))
    → Permᴰ want want'
    → environments_loop want got ≡ environments_loop want' got
loop_perm got Permᴰ.nil = refl
loop_perm got (Permᴰ.cons {a = a} {b = b} {l₁ = l} {l₂ = l'} e d) =
    entries_first a b l l' got e (loop_perm got d)
loop_perm got (Permᴰ.swap {a = a} {b = b} {l = l} e₁ e₂) =
    entries_swap a b l got ∙ ap₂ (λ x y. environments_loop (x ∷ y ∷ l) got) e₂ e₁
loop_perm got (Permᴰ.trans d₁ d₂) = loop_perm got d₁ ∙ loop_perm got d₂

loop_lookup :
    (want : List (String × FeatureEnvironment)) (got got' : List (String × ApiEnvironment))
    → ((k : String) → lookup k got ≡ lookup k got')
    → environments_loop want got ≡ environments_loop want got'
unfolding environments_loop
loop_lookup [] got got' h = refl
loop_lookup ((k, w) ∷ want) got got' h = ground (arith, h k, loop_lookup want got got' h)

environments_perm :
    (want want' : Option (List (String × FeatureEnvironment)))
    (got got' : Option (List (String × ApiEnvironment)))
    → Perm (elems want) (elems want')
    → Perm (elems got) (elems got')
    → Nodup (keys (elems got))
    → environments_up_to_date want got ≡ environments_up_to_date want' got'
unfolding environments_up_to_date
environments_perm want want' got got' p q n =
    ∥∥₁_elim p (Bool-set _ _) (λ d. loop_perm (elems got) d)
    ∙ ∥∥₁_elim q (Bool-set _ _)
        (λ d. loop_lookup (elems want') (elems got) (elems got') (λ k. lookup_perm k d n))

module _ {Float : Type 0} ⦃N : FloatOps Float⦄ where
  -- Whether a Feature is up to date depends neither on the order in which the loop ranges over the
  -- environments of the spec nor on the order of those of the observed feature, whose keys are
  -- distinct.
  pub is_up_to_date-order :
      (p : FeatureParameters) (ext : ApiFeature Float)
      (want : Option (List (String × FeatureEnvironment)))
      (got : Option (List (String × ApiEnvironment)))
      → Perm (elems p.environments) (elems want)
      → Perm (elems ext.environments) (elems got)
      → Nodup (keys (elems ext.environments))
      → is_up_to_date p ext
        ≡ is_up_to_date (record p { environments = want }) (record ext { environments = got })
  unfolding is_up_to_date value_up_to_date metadata_up_to_date ownership_up_to_date
  is_up_to_date-order p ext want got h k n =
      rw (environments_perm p.environments want ext.environments got h k n)
