-- ===== src/Tests/Answers.antt =====
-- What Observe of internal/controller/feature/feature.go makes of an answer over HTTP, and the
-- comparison of internal/controller/feature/convert.go on maps in two orders; a request of
-- internal/clients/growthbook read back.
use mathlib.Core.List.{Nodup, Pairwise, not-mem-nil, mem_of_ne_of_mem}
use mathlib.Core.List.Perm
use text.Mathlib.TextEquality.{eq_iff}
use provider_growthbook.Base.{
  ℕ, String, true, false, Option, none, some, List, [], ◌∷◌, ◌≡◌, ◌↔◌, arith,
}
use provider_growthbook.Apis.Feature.{FeatureParameters, FeatureEnvironment}
use provider_growthbook.Controller.Managed.{absent}
use provider_growthbook.Growthbook.Text.{Bytes}
use provider_growthbook.Growthbook.Errors.{ok}
use provider_growthbook.Growthbook.Feature.{
  Feature as ApiFeature, FeatureEnvironment as ApiEnvironment,
}
use provider_growthbook.Growthbook.Http.{Platform}
use provider_growthbook.Growthbook.Calls.Feature.{empty_feature, FeatureEnvelope}
use provider_growthbook.Feature.Convert.{is_up_to_date}
use provider_growthbook.Feature.External.{api_client, observe}
use provider_growthbook.Feature.Absence.{IsAbsent, observe-IsAbsent_iff}
use provider_growthbook.Feature.MapOrder.{keys, is_up_to_date-order}
use provider_growthbook.Growthbook.Http.{decode_response}
use provider_growthbook.Growthbook.Http.Bounds.{
  FirstBytes, AnswerOutcome, decode_response-AnswerOutcome,
}
use provider_growthbook.Growthbook.Json.{feature_fields}
use provider_growthbook.Growthbook.Json.Read.{read_request}
use provider_growthbook.Growthbook.Json.RoundTrip.{request_read, read_request-feature_fields}
use provider_growthbook.Growthbook.Feature.{FeatureRequest}
use provider_growthbook.Feature.Convert.{update_body}
use provider_growthbook.Feature.RulesConvert.{rule_base}
use provider_growthbook.Base.Lists.{All}
use provider_growthbook.Feature.External.{FeatureClient, create, update, delete}
use provider_growthbook.Growthbook.Http.{HttpRequest}
use provider_growthbook.Feature.Own.{IsOwn}
use provider_growthbook.Feature.Requests.{rest_client, methods-IsOwn}
use provider_growthbook.Base.{List}
use provider_growthbook.Tests.Data.{rollout, spec, tenths, spec_with, stored_with, dark_mode}
use provider_growthbook.Tests.Clients.{plain_client}

-- A network that answers every request with status 404 and an empty body.
abbrev nothing_there : Platform ℕ (Unit {0})
nothing_there = record {
  marshal = λ v. some [];
  request_is_valid = λ r. true;
  send = λ r w. (some (record { status_code = 404; body = some [] }), w);
  message_of = λ s. some (b'?' ∷ []);
}

abbrev no_envelope : Bytes → Option (FeatureEnvelope ℕ)
no_envelope s = none

abbrev empty_envelope : FeatureEnvelope ℕ
empty_envelope = record { feature = empty_feature }

abbrev nothing_client : FeatureClient ℕ (List HttpRequest × Unit {0})
nothing_client = rest_client ⦃N = tenths⦄ nothing_there plain_client no_envelope

observe-IsAbsent_iff_example :
    ((observe ⦃N = tenths⦄ (api_client nothing_there no_envelope plain_client) dark_mode tt).0
      ≡ ok absent)
    ↔ IsAbsent ⦃N = tenths⦄ nothing_there plain_client no_envelope "dark-mode" tt
observe-IsAbsent_iff_example =
    observe-IsAbsent_iff ⦃N = tenths⦄ nothing_there plain_client no_envelope dark_mode tt

abbrev two_environments : List (String × FeatureEnvironment)
two_environments =
    ("production", record { enabled = some true }) ∷ ("dev", record { enabled = none }) ∷ []

abbrev swapped_environments : List (String × FeatureEnvironment)
swapped_environments =
    ("dev", record { enabled = none }) ∷ ("production", record { enabled = some true }) ∷ []

abbrev two_stored : List (String × ApiEnvironment)
two_stored = ("production", record { enabled = true }) ∷ ("dev", record { enabled = false }) ∷ []

abbrev swapped_stored : List (String × ApiEnvironment)
swapped_stored =
    ("dev", record { enabled = false }) ∷ ("production", record { enabled = true }) ∷ []

other_key : (a : String) → "production" ≡ a → a ≡ "dev" → ⊥
other_key a e h = ground (arith, eq_iff "production" "dev")

keys-Nodup : Nodup {A = String} (keys two_stored)
keys-Nodup =
    Pairwise.cons (λ a m e. not-mem-nil (mem_of_ne_of_mem (other_key a e) m))
      (Pairwise.cons (λ a m e. not-mem-nil m) Pairwise.nil)

abbrev two_spec : FeatureParameters
two_spec = record (spec_with none) { environments = some two_environments }

abbrev two_feature : ApiFeature ℕ
two_feature = record (stored_with none) { environments = some two_stored }

is_up_to_date-order_example :
    is_up_to_date ⦃N = tenths⦄ two_spec two_feature
    ≡ is_up_to_date ⦃N = tenths⦄
        (record two_spec { environments = some swapped_environments })
        (record two_feature { environments = some swapped_stored })
is_up_to_date-order_example =
    is_up_to_date-order ⦃N = tenths⦄ two_spec two_feature (some swapped_environments)
      (some swapped_stored) (Perm.swap _ _ _) (Perm.swap _ _ _) keys-Nodup

abbrev down : Bytes
down = b' ' ∷ b'd' ∷ b'o' ∷ b'w' ∷ b'n' ∷ b' ' ∷ []

decode_response-AnswerOutcome_example :
    (payload : Bytes) × FirstBytes 4_194_304 down payload
    × AnswerOutcome nothing_there (some no_envelope) empty_envelope 503 payload (
        decode_response nothing_there
          (some no_envelope)
          empty_envelope
          (record { status_code = 503; body = some down }))
decode_response-AnswerOutcome_example =
    decode_response-AnswerOutcome nothing_there (some no_envelope) empty_envelope 503 down

abbrev one_rule_request : FeatureRequest ℕ
one_rule_request =
    update_body ⦃N = tenths⦄ spec
      (some (some (rule_base ⦃N = tenths⦄ (rollout "0.5") (some 5) ∷ [])))

read_request-feature_fields_example :
    read_request (feature_fields one_rule_request) ≡ some (request_read one_rule_request)
read_request-feature_fields_example = read_request-feature_fields one_rule_request

methods-IsOwn_example :
    All
      (IsOwn nothing_there plain_client "dark-mode")
      (observe ⦃N = tenths⦄ nothing_client dark_mode ([], tt)).2.0
    × All
        (IsOwn nothing_there plain_client "dark-mode")
        (create ⦃N = tenths⦄ nothing_client dark_mode ([], tt)).2.0
    × All
        (IsOwn nothing_there plain_client "dark-mode")
        (update ⦃N = tenths⦄ nothing_client dark_mode ([], tt)).2.0
    × All
        (IsOwn nothing_there plain_client "dark-mode")
        (delete nothing_client dark_mode ([], tt)).1.0
methods-IsOwn_example =
    methods-IsOwn ⦃N = tenths⦄ nothing_there plain_client no_envelope dark_mode [] tt tt
