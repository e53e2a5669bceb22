-- ===== src/Growthbook/Http.antt =====
-- internal/clients/growthbook/client.go: `do`, `newRequest`, `decodeResponse` and `errorMessage`.
-- What net/http, encoding/json and io do is a parameter of these functions; a state of the world
-- outside the program is passed along.
pub mod Laws
pub mod Bounds
pub mod Record
use provider_growthbook.Base.{
  ℕ, zero, suc, String, Bool, true, false, not, ◌&&◌, ◌||◌, Option, none, some, List, [], ◌∷◌, ◌++◌,
  ◌==◌, nat_eq, ltb, if◌then◌else◌,
}
use provider_growthbook.Growthbook.Errors.{Error, api_error, plain, wrapped, Result, ok, err}
use provider_growthbook.Growthbook.Text.{Bytes, utf8, trim_space}
use provider_growthbook.Growthbook.Json.{Json}
use provider_growthbook.Growthbook.Credentials.{Client}

pub data Method : Type 0 where
  get post put delete : Method

pub record HttpRequest : Type 0 where
  pub method : Method
  pub url : Bytes
  pub authorization : Bytes
  pub accept : Bytes
  pub content_type : Option Bytes
  pub body : Option Bytes

-- The body is `none` where reading it fails.
pub record HttpResponse : Type 0 where
  pub status_code : ℕ
  pub body : Option Bytes

-- The standard library and the network. `marshal` is json.Marshal, which refuses NaN;
-- `request_is_valid` says whether http.NewRequestWithContext accepts the request; `send` is
-- http.Client.Do, `none` being a transport error; `message_of` is json.Unmarshal into a struct with
-- the one field `message`, `none` being an error of it.
pub record Platform (Float W : Type 0) : Type 0 where
  pub marshal : Json Float → Option Bytes
  pub request_is_valid : HttpRequest → Bool
  pub send : HttpRequest → W → Option HttpResponse × W
  pub message_of : Bytes → Option Bytes

abbrev pub take : ℕ → Bytes → Bytes
take zero s = []
take (suc n) [] = []
take (suc n) (c ∷ s) = c ∷ take n s

-- 4 << 20
unfoldable pub body_limit : ℕ
body_limit = 4_194_304

-- `if len(s) > 200 { s = s[:200] }`, which takes the first 200 bytes of any text.
abbrev pub raw_message : Bytes → Bytes
raw_message payload = take 200 (trim_space payload)

abbrev pub message_or_raw : Option Bytes → Bytes → Bytes
message_or_raw none payload = raw_message payload
message_or_raw (some []) payload = raw_message payload
message_or_raw (some (c ∷ m)) payload = c ∷ m

abbrev pub is_success : ℕ → Bool
is_success status = not (ltb status 200 || ltb 299 status)

abbrev pub unmarshalled : {A : Type 0} → Option A → Result A
unmarshalled none = err (wrapped "cannot decode response body" (plain "json.Unmarshal"))
unmarshalled (some a) = ok a

-- The caller's `out` is `none` where it passes nil, and otherwise json.Unmarshal into its type. The
-- value that the caller then reads is `initial` where nothing was decoded.
abbrev pub decode_success : {A : Type 0} → Option (Bytes → Option A) → A → Bytes → Result A
decode_success none initial payload = ok initial
decode_success (some unmarshal) initial [] = ok initial
decode_success (some unmarshal) initial (c ∷ s) = unmarshalled (unmarshal (c ∷ s))

module _ {Float W : Type 0} (platform : Platform Float W) where
  unfoldable pub error_message : Bytes → Bytes
  error_message payload = message_or_raw (platform.message_of payload) payload

  module _ {A : Type 0} (out : Option (Bytes → Option A)) (initial : A) where
    abbrev pub decode_payload : ℕ → Bytes → Result A
    decode_payload status payload =
        if is_success status
        then decode_success out initial payload
        else err (api_error (record { status_code = status; message = error_message payload }))

    unfoldable pub decode_response : HttpResponse → Result A
    decode_response resp = elim resp.body [
      | none ↦ err (wrapped "cannot read response body" (plain "io.ReadAll"))
      | some body ↦ decode_payload resp.status_code (take body_limit body)
    ]

  abbrev pub encoded : Option Bytes → Result (Option Bytes)
  encoded none = err (wrapped "cannot encode request body" (plain "json.Marshal"))
  encoded (some b) = ok (some b)

  abbrev pub marshalled : Option (Json Float) → Result (Option Bytes)
  marshalled none = ok none
  marshalled (some body) = encoded (platform.marshal body)

  abbrev pub content_type_of : Option Bytes → Option Bytes
  content_type_of none = none
  content_type_of (some _) = some (utf8 "application/json")

  abbrev pub checked : HttpRequest → Result HttpRequest
  checked req =
      if platform.request_is_valid req
      then ok req
      else err (wrapped "cannot build request" (plain "http.NewRequest"))

  module _ {A : Type 0} (out : Option (Bytes → Option A)) (initial : A) where
    abbrev pub received : Option HttpResponse × W → Result A × W
    received (none, w) = (err (wrapped "request failed" (plain "http.Client.Do")), w)
    received (some resp, w) = (decode_response out initial resp, w)

    abbrev pub sent : Result HttpRequest → W → Result A × W
    sent (err e) w = (err e, w)
    sent (ok req) w = received (platform.send req w)

  module _ (c : Client) where
    abbrev pub assemble : Method → Bytes → Option Bytes → HttpRequest
    assemble method path body = record {
      method = method;
      url = c.base_url ++ path;
      authorization = utf8 "Bearer " ++ c.api_key;
      accept = utf8 "application/json";
      content_type = content_type_of body;
      body = body;
    }

    abbrev pub checked_request : Method → Bytes → Result (Option Bytes) → Result HttpRequest
    checked_request method path (err e) = err e
    checked_request method path (ok b) = checked (assemble method path b)

    unfoldable pub new_request : Method → Bytes → Option (Json Float) → Result HttpRequest
    new_request method path body = checked_request method path (marshalled body)

    -- `do` of client.go.
    unfoldable pub do_request :
        {A : Type 0}
        → Option (Bytes → Option A)
        → A
        → Method
        → Bytes
        → Option (Json Float)
        → W
        → Result A × W
    unfolding new_request decode_response
    do_request out initial method path body w = sent out initial (new_request method path body) w
