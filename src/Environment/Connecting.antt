-- ===== src/Environment/Connecting.antt =====
-- Connect of internal/controller/environment/environment.go with its newClient.
use provider_growthbook.Base.{Bool, Option}
use provider_growthbook.Apis.Environment.{Environment}
use provider_growthbook.Controller.Connect.{Kube, connect, through}
use provider_growthbook.Growthbook.Text.{Bytes}
use provider_growthbook.Growthbook.Credentials.{Client, Credentials, new_from_secret}
use provider_growthbook.Growthbook.Errors.{Result}
use provider_growthbook.Growthbook.Http.{Platform}
use provider_growthbook.Growthbook.Calls.Environment.{
  EnvironmentListEnvelope, EnvironmentEnvelope, get_environment, create_environment,
  update_environment, delete_environment,
}
use provider_growthbook.Environment.External.{EnvironmentClient}

module _ {Float W : Type 0} where
  -- `newClient`: the client of the REST API behind the interface.
  abbrev pub api_client :
      Platform Float W
      → (Bytes → Option EnvironmentListEnvelope)
      → (Bytes → Option EnvironmentEnvelope)
      → Client
      → EnvironmentClient W
  api_client platform list envelope c = record {
    get_environment = get_environment platform c list;
    create_environment = create_environment platform c envelope;
    update_environment = update_environment platform c envelope;
    delete_environment = delete_environment platform c;
  }

module _ {Float W Selectors : Type 0} where
  unfoldable pub connect_environment :
      Kube Selectors W
      → Platform Float W
      → (Bytes → Option Credentials)
      → (Bytes → Bool)
      → (Bytes → Option EnvironmentListEnvelope)
      → (Bytes → Option EnvironmentEnvelope)
      → Environment
      → W
      → Result (EnvironmentClient W) × W
  connect_environment kube platform unmarshal url_parses list envelope cr =
      connect kube
        (λ input.
          through (api_client platform list envelope) (new_from_secret unmarshal url_parses input))
        cr.namespace cr.provider_config_reference
