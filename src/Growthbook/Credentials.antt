-- ===== src/Growthbook/Credentials.antt =====
-- internal/clients/growthbook/client.go: the credentials and the construction of a client.
pub mod Laws
use provider_growthbook.Base.{
  ℕ, String, Bool, true, false, not, Option, none, some, List, [], ◌∷◌, ◌==◌, nat_eq, if◌then◌else◌,
}
use provider_growthbook.Growthbook.Errors.{Error, plain, wrapped, Result, ok, err, ◌>>=◌}
use provider_growthbook.Growthbook.Text.{Bytes, utf8, trim_space, trim_slashes}

abbrev pub default_api_url : Bytes
unfolding utf8
default_api_url = utf8 "https://api.growthbook.io/api"

pub record Credentials : Type 0 where
  pub api_key : Bytes
  pub api_url : Bytes

abbrev pub is_empty : Bytes → Bool
is_empty [] = true
is_empty (c ∷ s) = false

abbrev begins_with_brace : Bytes → Bool
begins_with_brace [] = false
begins_with_brace (c ∷ s) = c == b'{'

-- The client without its HTTP transport.
pub record Client : Type 0 where
  pub base_url : Bytes
  pub api_key : Bytes

abbrev pub complete_credentials : Credentials → Result Credentials
complete_credentials c =
    if is_empty c.api_key
    then err (plain "credentials do not contain an apiKey")
    else ok (record c {
      api_url = trim_slashes (if is_empty c.api_url then default_api_url else c.api_url);
    })

abbrev pub decoded : Option Credentials → Result Credentials
decoded none = err (wrapped "cannot decode credentials JSON" (plain "json.Unmarshal"))
decoded (some c) = ok c

-- `json.Unmarshal` into Credentials, which leaves a missing field empty, and the check of
-- `url.Parse`, are the standard library's: parameters here. `none` is an error of theirs.
module _ (unmarshal : Bytes → Option Credentials) where
  abbrev pub decode_credentials : Bytes → Result Credentials
  decode_credentials trimmed =
      if begins_with_brace trimmed
      then decoded (unmarshal trimmed)
      else ok (record { api_key = trimmed; api_url = [] })

  unfoldable pub parse_credentials : Bytes → Result Credentials
  unfolding utf8
  parse_credentials input =
      if is_empty (trim_space input)
      then err (plain "credentials are empty")
      else (decode_credentials (trim_space input) >>= complete_credentials)

abbrev pub base_of : Credentials → Bytes
base_of creds = if is_empty creds.api_url then default_api_url else creds.api_url

module _ (url_parses : Bytes → Bool) where
  unfoldable pub new : Credentials → Result Client
  unfolding utf8
  new creds =
      if is_empty creds.api_key
      then err (plain "apiKey is required")
      else if not (url_parses (base_of creds))
      then err (wrapped "invalid apiUrl" (plain "url.Parse"))
      else ok (record { base_url = trim_slashes (base_of creds); api_key = creds.api_key })

unfoldable pub new_from_secret :
    (Bytes → Option Credentials) → (Bytes → Bool) → Bytes → Result Client
unfolding parse_credentials new
new_from_secret unmarshal url_parses input = do
  creds ← parse_credentials unmarshal input
  new url_parses creds
