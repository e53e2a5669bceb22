-- ===== src/Project/Connecting.antt =====
-- Connect of internal/controller/project/project.go with its newClient.
use provider_growthbook.Base.{Bool, Option}
use provider_growthbook.Apis.Project.{Project}
use provider_growthbook.Controller.Connect.{Kube, connect, through}
use provider_growthbook.Growthbook.Text.{Bytes}
use provider_growthbook.Growthbook.Credentials.{Client, Credentials, new_from_secret}
use provider_growthbook.Growthbook.Errors.{Result}
use provider_growthbook.Growthbook.Http.{Platform}
use provider_growthbook.Growthbook.Calls.Project.{
  ProjectEnvelope, get_project, create_project, update_project, delete_project,
}
use provider_growthbook.Project.External.{ProjectClient}

module _ {Float W : Type 0} where
  -- `newClient`: the client of the REST API behind the interface.
  abbrev pub api_client :
      Platform Float W → (Bytes → Option (ProjectEnvelope Float)) → Client → ProjectClient Float W
  api_client platform envelope c = record {
    get_project = get_project platform c envelope;
    create_project = create_project platform c envelope;
    update_project = update_project platform c envelope;
    delete_project = delete_project platform c;
  }

module _ {Float W Selectors : Type 0} where
  unfoldable pub connect_project :
      Kube Selectors W
      → Platform Float W
      → (Bytes → Option Credentials)
      → (Bytes → Bool)
      → (Bytes → Option (ProjectEnvelope Float))
      → Project
      → W
      → Result (ProjectClient Float W) × W
  connect_project kube platform unmarshal url_parses envelope cr =
      connect kube
        (λ input.
          through (api_client platform envelope) (new_from_secret unmarshal url_parses input))
        cr.namespace cr.provider_config_reference
