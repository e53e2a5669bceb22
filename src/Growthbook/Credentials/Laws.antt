-- ===== src/Growthbook/Credentials/Laws.antt =====
-- What a client that was built from a secret is like.
use provider_growthbook.Base.{
  ℕ, Bool, Option, [], ◌∷◌, ◌≡◌, ◌≢◌, refl, sym, ◌∙◌, subst, arith, ◌==◌, nat_eq, if◌then◌else◌,
}
use provider_growthbook.Growthbook.Errors.{ok, ◌>>=◌, >>=-ok_steps}
use provider_growthbook.Growthbook.Text.{Bytes, utf8, trim_space, trim_slashes}
use provider_growthbook.Growthbook.Credentials.{
  default_api_url, Credentials, Client, is_empty, base_of, complete_credentials, decode_credentials,
  parse_credentials, new, new_from_secret,
}

-- The last byte is not a slash.
abbrev pub EndsInNoSlash : Bytes → Type 0
EndsInNoSlash [] = Unit
EndsInNoSlash (c ∷ []) = c ≢ b'/'
EndsInNoSlash (c ∷ d ∷ s) = EndsInNoSlash (d ∷ s)

cons-EndsInNoSlash :
    (c : ℕ) (t : Bytes)
    → EndsInNoSlash t
    → EndsInNoSlash (
        let kept : Bytes = elim t [ [] ↦ if c == b'/' then [] else c ∷ [] | d ∷ r ↦ c ∷ d ∷ r ] in
        kept)
cons-EndsInNoSlash c [] h = ground arith
cons-EndsInNoSlash c (d ∷ t) h = h

trim_slashes-EndsInNoSlash : (s : Bytes) → EndsInNoSlash (trim_slashes s)
unfolding trim_slashes
trim_slashes-EndsInNoSlash [] = tt
trim_slashes-EndsInNoSlash (c ∷ s) =
    cons-EndsInNoSlash c (trim_slashes s) (trim_slashes-EndsInNoSlash s)

trim_slashes-of-trimmed : (s : Bytes) → EndsInNoSlash s → trim_slashes s ≡ s
unfolding trim_slashes
trim_slashes-of-trimmed [] h = refl
trim_slashes-of-trimmed (c ∷ []) h = ground arith
trim_slashes-of-trimmed (c ∷ d ∷ s) h = rw (trim_slashes-of-trimmed (d ∷ s) h)

default-IsUsable : (EndsInNoSlash default_api_url) × (default_api_url ≢ [])
unfolding utf8
default-IsUsable = (omega arith, ground arith)

-- A base URL to which a path that begins with a slash can be appended.
abbrev pub IsBase : Bytes → Type 0
IsBase s = EndsInNoSlash s × (s ≢ [])

base_of-IsBase : (creds : Credentials) → EndsInNoSlash creds.api_url → IsBase (base_of creds)
base_of-IsBase creds h = base_cases creds.api_url h
  where
    base_cases :
        (url : Bytes) → EndsInNoSlash url → IsBase (if is_empty url then default_api_url else url)
    base_cases [] h' = default-IsUsable
    base_cases (c ∷ s) h' = (h', ground arith)

new_fields :
    (url_parses : Bytes → Bool) (creds : Credentials) (c : Client)
    → new url_parses creds ≡ ok c
    → (c.api_key ≢ []) × (c.base_url ≡ trim_slashes (base_of creds))
unfolding new
new_fields url_parses creds c e = ground arith

new-IsBase :
    (url_parses : Bytes → Bool) (creds : Credentials) (c : Client)
    → EndsInNoSlash creds.api_url
    → new url_parses creds ≡ ok c
    → (c.api_key ≢ []) × IsBase c.base_url
new-IsBase url_parses creds c h e =
    let (key, url) = new_fields url_parses creds c e in
    let usable = base_of-IsBase creds h in
    (key, subst IsBase (sym (url ∙ trim_slashes-of-trimmed (base_of creds) usable.0)) usable)

completed_url :
    (c creds : Credentials)
    → complete_credentials c ≡ ok creds
    → creds.api_url ≡ trim_slashes (base_of c)
completed_url c creds e = ground arith

parsed_from :
    (unmarshal : Bytes → Option Credentials) (trimmed : Bytes) (creds : Credentials)
    → (decode_credentials unmarshal trimmed >>= complete_credentials) ≡ ok creds
    → EndsInNoSlash creds.api_url
parsed_from unmarshal trimmed creds e =
    let (c, _, done) = >>=-ok_steps (decode_credentials unmarshal trimmed) complete_credentials e in
    subst EndsInNoSlash (sym (completed_url c creds done)) (trim_slashes-EndsInNoSlash (base_of c))

parsed_url :
    (unmarshal : Bytes → Option Credentials) (input : Bytes) (creds : Credentials)
    → parse_credentials unmarshal input ≡ ok creds
    → EndsInNoSlash creds.api_url
unfolding parse_credentials
parsed_url unmarshal input creds e = parsed_from unmarshal (trim_space input) creds (ground arith)

-- A client that is built from a secret has an API key, and a base URL that is not empty and does not
-- end in a slash, so that a path can be appended to it; whatever the secret holds, and whatever the
-- JSON decoder and the URL check of the standard library answer.
pub new_from_secret-IsBase :
    (unmarshal : Bytes → Option Credentials) (url_parses : Bytes → Bool) (input : Bytes)
    (c : Client)
    → new_from_secret unmarshal url_parses input ≡ ok c
    → (c.api_key ≢ []) × IsBase c.base_url
unfolding new_from_secret
new_from_secret-IsBase unmarshal url_parses input c e =
    let (creds, parsed, built) =
      >>=-ok_steps (parse_credentials unmarshal input) (new url_parses) e in
    new-IsBase url_parses creds c (parsed_url unmarshal input creds parsed) built
