-- ===== src/SdkConnection/Connecting.antt =====
-- Connect of internal/controller/sdkconnection/sdkconnection.go with its newClient.
use provider_growthbook.Base.{Bool, Option}
use provider_growthbook.Apis.SdkConnection.{SdkConnection}
use provider_growthbook.Controller.Connect.{Kube, connect, through}
use provider_growthbook.Growthbook.Text.{Bytes}
use provider_growthbook.Growthbook.Credentials.{Client, Credentials, new_from_secret}
use provider_growthbook.Growthbook.Errors.{Result}
use provider_growthbook.Growthbook.Http.{Platform}
use provider_growthbook.Growthbook.Calls.SdkConnection.{
  SdkConnectionEnvelope, get_sdk_connection, create_sdk_connection, update_sdk_connection,
  delete_sdk_connection,
}
use provider_growthbook.SdkConnection.External.{SdkConnectionClient}

module _ {Float W : Type 0} where
  -- `newClient`: the client of the REST API behind the interface.
  abbrev pub api_client :
      Platform Float W → (Bytes → Option SdkConnectionEnvelope) → Client → SdkConnectionClient W
  api_client platform envelope c = record {
    get_sdk_connection = get_sdk_connection platform c envelope;
    create_sdk_connection = create_sdk_connection platform c envelope;
    update_sdk_connection = update_sdk_connection platform c envelope;
    delete_sdk_connection = delete_sdk_connection platform c;
  }

module _ {Float W Selectors : Type 0} where
  unfoldable pub connect_sdk_connection :
      Kube Selectors W
      → Platform Float W
      → (Bytes → Option Credentials)
      → (Bytes → Bool)
      → (Bytes → Option SdkConnectionEnvelope)
      → SdkConnection
      → W
      → Result (SdkConnectionClient W) × W
  connect_sdk_connection kube platform unmarshal url_parses envelope cr =
      connect kube
        (λ input.
          through (api_client platform envelope) (new_from_secret unmarshal url_parses input))
        cr.namespace cr.provider_config_reference
