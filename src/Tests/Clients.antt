-- ===== src/Tests/Clients.antt =====
-- internal/clients/growthbook at concrete credentials, ids, requests and answers.
use provider_growthbook.Base.{ℕ, true, false, Option, none, some, [], ◌∷◌, ◌≡◌, ◌≢◌, ◌↔◌, refl}
use provider_growthbook.Growthbook.Text.{Bytes, utf8, trim_space, trim_slashes}
use provider_growthbook.Growthbook.Errors.{ok}
use provider_growthbook.Growthbook.Json.{Fields, object}
use provider_growthbook.Growthbook.Feature.{FeatureRequest}
use provider_growthbook.Growthbook.Calls.Feature.{
  FeatureEnvelope, feature_path, feature_call, update_feature,
}
use provider_growthbook.Growthbook.Calls.Environment.{
  EnvironmentListEnvelope, list_environments, get_environment,
}
use provider_growthbook.Growthbook.Calls.Lookup.{LookupOutcome, get_environment-LookupOutcome}
use provider_growthbook.Growthbook.Calls.Laws.{update_feature-omits}
use provider_growthbook.Feature.External.{archive_request}
use provider_growthbook.Growthbook.Json.Laws.{member}
use provider_growthbook.Growthbook.Credentials.{
  Client, Credentials, new_from_secret, parse_credentials, new,
}
use provider_growthbook.Growthbook.Credentials.Laws.{IsBase, new_from_secret-IsBase}
use provider_growthbook.Growthbook.Http.{Platform, get, post, do_request}
use provider_growthbook.Growthbook.Http.Laws.{api_error_of, IsRefused, do_request-IsRefused_iff}

abbrev no_json : Bytes → Option Credentials
no_json s = none

abbrev pub plain_client : Client
unfolding utf8
plain_client = record {
  base_url = utf8 "https://api.growthbook.io/api";
  api_key = b'k' ∷ b'1' ∷ [];
}

plain_client-new : new_from_secret no_json (λ s. true) (b' ' ∷ b'k' ∷ b'1' ∷ []) ≡ ok plain_client
unfolding new_from_secret parse_credentials new utf8 plain_client trim_space trim_slashes
plain_client-new = refl

new_from_secret-IsBase_example : (plain_client.api_key ≢ []) × IsBase plain_client.base_url
new_from_secret-IsBase_example =
    new_from_secret-IsBase no_json (λ s. true) (b' ' ∷ b'k' ∷ b'1' ∷ []) plain_client
      plain_client-new

-- A network that answers every request with status 503 and an empty body.
abbrev unavailable : Platform ℕ (Unit {0})
unavailable = record {
  marshal = λ v. some [];
  request_is_valid = λ r. true;
  send = λ r w. (some (record { status_code = 503; body = some [] }), w);
  message_of = λ s. none;
}

do_request-IsRefused_iff_example :
    (api_error_of (do_request unavailable plain_client none tt get [] none tt).0
      ≡ some (record { status_code = 503; message = [] }))
    ↔ IsRefused unavailable plain_client none tt get [] none tt
        (record { status_code = 503; message = [] })
do_request-IsRefused_iff_example =
    do_request-IsRefused_iff unavailable plain_client none tt get [] none tt
      (record { status_code = 503; message = [] })

abbrev no_feature : Bytes → Option (FeatureEnvelope ℕ)
no_feature s = none

abbrev renaming : FeatureRequest ℕ
renaming = record archive_request { id = "dark-mode"; value_type = "string" }

update_feature-omits_example :
    (fs : Fields ℕ) × (update_feature unavailable plain_client no_feature "dark-mode" renaming tt
      ≡ feature_call unavailable plain_client no_feature post
          (feature_path "dark-mode")
          (some (object fs))
          tt)
    × (member "id" fs ≡ none)
    × (member "valueType" fs ≡ none)
update_feature-omits_example =
    update_feature-omits unavailable plain_client no_feature "dark-mode" renaming tt

-- A network that answers every request with status 200, and a listing that has one environment.
abbrev answering : Platform ℕ (Unit {0})
answering = record {
  marshal = λ v. some [];
  request_is_valid = λ r. true;
  send = λ r w. (some (record { status_code = 200; body = some (b'l' ∷ []) }), w);
  message_of = λ s. none;
}

abbrev one_listed : Bytes → Option EnvironmentListEnvelope
one_listed s = some (record {
  environments = some (
      record {
        id = "staging";
        description = "";
        toggle_on_list = true;
        default_state = false;
        projects = none;
        parent = "";
      }
      ∷ []);
})

get_environment-LookupOutcome_example :
    LookupOutcome "staging"
      (list_environments answering plain_client one_listed tt).0
      (get_environment answering plain_client one_listed "staging" tt).0
get_environment-LookupOutcome_example =
    get_environment-LookupOutcome answering plain_client one_listed "staging" tt
