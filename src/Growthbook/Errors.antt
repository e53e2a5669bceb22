-- ===== src/Growthbook/Errors.antt =====
-- internal/clients/growthbook/client.go: `APIError` and its classification; Go's error chains.
use provider_growthbook.Growthbook.Text.{Bytes, utf8, contains, to_lower}
use provider_growthbook.Base.{
  ℕ, ◌≡◌, refl, arith, String, Bool, true, false, ◌||◌, Option, none, some, ◌==◌, ◌!=◌, nat_eq,
  if◌then◌else◌,
}

pub record ApiError : Type 0 where
  pub status_code : ℕ
  pub message : Bytes

-- `plain` is an error with a text alone; `wrapped` adds a text to a cause, as `errors.Wrap` and
-- `%w` do, and `wrapped_at` a text with a number in it, as `errors.Wrapf` does.
pub data Error : Type 0 where
  api_error : ApiError → Error
  plain : String → Error
  wrapped : String → Error → Error
  wrapped_at : String → ℕ → Error → Error

-- The pair of a result and an error, of which Go's code sets one.
pub data Result {ℓ} (T : Type ℓ) : Type ℓ where
  err : Error → Result T
  ok : T → Result T

-- `if err != nil { return err }` before what follows.
module _ {ℓ κ} {S : Type ℓ} {T : Type κ} where
  infixl 5 ◌>>=◌
  abbrev pub ◌>>=◌ : Result S → (S → Result T) → Result T
  err e >>= next = err e
  ok s >>= next = next s

  -- A chain that succeeds has a first step that succeeds, and goes on from its result.
  pub >>=-ok_steps :
      (step : Result S) (next : S → Result T) {t : T}
      → (step >>= next) ≡ ok t
      → (s : S) × (step ≡ ok s) × (next s ≡ ok t)
  >>=-ok_steps (err e) next done = ground arith
  >>=-ok_steps (ok s) next done = (s, refl, done)

-- `errors.Wrap`, which leaves success alone.
abbrev pub wrap {ℓ} : {A : Type ℓ} → String → Result A → Result A
wrap message (ok a) = ok a
wrap message (err e) = err (wrapped message e)

-- `errors.As` with an `*APIError` as its target: the first one in the chain.
unfoldable pub as_api_error : Error → Option ApiError
as_api_error (api_error e) = some e
as_api_error (plain _) = none
as_api_error (wrapped _ e) = as_api_error e
as_api_error (wrapped_at _ _ e) = as_api_error e

abbrev pub not_found_error : ApiError → Bool
not_found_error e =
    if e.status_code == 404
    then true
    else if e.status_code != 400
    then false
    else contains (to_lower e.message) (utf8 "could not find")
      || contains (to_lower e.message) (utf8 "not found")

unfoldable pub is_not_found : Error → Bool
unfolding as_api_error contains to_lower utf8
is_not_found e = elim (as_api_error e) [ none ↦ false | some ae ↦ not_found_error ae ]

abbrev pub archive_error : ApiError → Bool
archive_error e =
    if e.status_code != 403
    then false
    else contains (to_lower e.message) (utf8 "archive the feature first")

unfoldable pub is_archive_required : Error → Bool
unfolding as_api_error contains to_lower utf8
is_archive_required e = elim (as_api_error e) [ none ↦ false | some ae ↦ archive_error ae ]
