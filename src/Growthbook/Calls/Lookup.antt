-- ===== src/Growthbook/Calls/Lookup.antt =====
-- `GetEnvironment` of internal/clients/growthbook/environment.go, which looks an environment up in the
-- list of all of them.
use provider_growthbook.Base.{
  String, true, Option, none, some, List, [], ◌∷◌, ◌≡◌, ◌≢◌, ◌⊎◌, inl, inr, Bool-cases, ==→≡, refl,
  arith, ◌==◌, string_eq,
}
use provider_growthbook.Base.Lists.{elems, All}
use provider_growthbook.Growthbook.Text.{Bytes}
use provider_growthbook.Growthbook.Errors.{Result, ok, err, is_not_found, as_api_error}
use provider_growthbook.Growthbook.Credentials.{Client}
use provider_growthbook.Growthbook.Http.{Platform}
use provider_growthbook.Growthbook.Environment.{Environment}
use provider_growthbook.Growthbook.Calls.Environment.{
  EnvironmentListEnvelope, find_environment, environment_not_found, found_or_error,
  list_environments, select, get_environment,
}
use text.Mathlib.TextEquality.{eq_iff}

-- The first environment of the list that has the id.
abbrev pub IsFirst : String → List Environment → Environment → Type 0
IsFirst id [] e = ⊥
IsFirst id (x ∷ envs) e = ((x.id ≡ id) × (e ≡ x)) ⊎ ((x.id ≢ id) × IsFirst id envs e)

abbrev FindOutcome : String → List Environment → Option Environment → Type 0
FindOutcome id envs none = All (λ x. x.id ≢ id) envs
FindOutcome id envs (some e) = IsFirst id envs e

-- The result of the lookup, by the result of the listing.
abbrev pub LookupOutcome : String → Result (Option (List Environment)) → Result Environment → Type 0
LookupOutcome id (ok envs) (ok e) = IsFirst id (elems envs) e
LookupOutcome id (ok envs) (err d) = (is_not_found d ≡ true) × All (λ x. x.id ≢ id) (elems envs)
LookupOutcome id (err d) found = found ≡ err d

later_outcome :
    (id : String) (x : Environment) (envs : List Environment) (o : Option Environment)
    → x.id ≢ id
    → FindOutcome id envs o
    → FindOutcome id (x ∷ envs) o
later_outcome id x envs none ne h = (ne, h)
later_outcome id x envs (some e) ne h = inr (ne, h)

find_environment-outcome :
    (id : String) (envs : List Environment) → FindOutcome id envs (find_environment id envs)
unfolding find_environment
find_environment-outcome id [] = tt
find_environment-outcome id (x ∷ envs) = elim (Bool-cases (x.id == id)) [
  | inl same ↦ rw same (inl (==→≡ x.id id same, refl))
  | inr other ↦ rw other (
      later_outcome id x envs (find_environment id envs) (ground (arith, eq_iff x.id id))
        (find_environment-outcome id envs))
]

not_found_outcome : (id : String) → is_not_found (environment_not_found id) ≡ true
unfolding is_not_found as_api_error
not_found_outcome id = refl

found_outcome :
    (id : String) (envs : Option (List Environment)) (o : Option Environment)
    → FindOutcome id (elems envs) o
    → LookupOutcome id (ok envs) (found_or_error id o)
found_outcome id envs none h = (not_found_outcome id, h)
found_outcome id envs (some e) h = h

module _ {Float W : Type 0} (platform : Platform Float W) (c : Client)
    (unmarshal : Bytes → Option EnvironmentListEnvelope) where
  select-outcome :
      (id : String) (r : Result (Option (List Environment)) × W)
      → LookupOutcome id r.0 (select platform c unmarshal id r).0
  select-outcome id (ok envs, w) =
      found_outcome id envs (find_environment id (elems envs))
        (find_environment-outcome id (elems envs))
  select-outcome id (err e, w) = refl

  -- GetEnvironment returns the first environment of the listing that has the id. Where none has it,
  -- the error is one that IsNotFound accepts, and an error of the listing is returned as it is.
  pub get_environment-LookupOutcome :
      (id : String) (w : W)
      → LookupOutcome id
          (list_environments platform c unmarshal w).0
          (get_environment platform c unmarshal id w).0
  unfolding get_environment
  get_environment-LookupOutcome id w = select-outcome id (list_environments platform c unmarshal w)
