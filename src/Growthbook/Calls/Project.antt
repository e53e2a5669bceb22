-- ===== src/Growthbook/Calls/Project.antt =====
-- internal/clients/growthbook/project.go: the methods of `Client`.
use provider_growthbook.Base.{String, Option, none, some, ◌++◌}
use provider_growthbook.Growthbook.Errors.{Result, ok, err}
use provider_growthbook.Growthbook.Text.{Bytes, utf8, path_escape}
use provider_growthbook.Growthbook.Json.{Json, object, project_fields}
use provider_growthbook.Growthbook.Credentials.{Client}
use provider_growthbook.Growthbook.Http.{Method, get, post, put, delete, Platform, do_request}
use provider_growthbook.Growthbook.Project.{Project, ProjectRequest}

pub record ProjectEnvelope (Float : Type 0) : Type 0 where
  pub project : Project Float

abbrev empty_project : {Float : Type 0} → Project Float
empty_project = record {
  id = "";
  name = "";
  description = "";
  public_id = "";
  restrict_access = none;
  settings = none;
  date_created = "";
  date_updated = "";
}

abbrev pub project_path : String → Bytes
unfolding utf8 path_escape
project_path id = utf8 "/v1/projects/" ++ path_escape (utf8 id)

module _ {Float W : Type 0} (platform : Platform Float W) (c : Client) where
  module _ (unmarshal : Bytes → Option (ProjectEnvelope Float)) where
    abbrev envelope_project : Result (ProjectEnvelope Float) × W → Result (Project Float) × W
    envelope_project (ok out, w) = (ok out.project, w)
    envelope_project (err e, w) = (err e, w)

    abbrev project_call : Method → Bytes → Option (Json Float) → W → Result (Project Float) × W
    project_call method path body w = envelope_project (
        do_request platform c (some unmarshal) (record { project = empty_project }) method path body
          w)

    unfoldable pub get_project : String → W → Result (Project Float) × W
    get_project id = project_call get (project_path id) none

    unfoldable pub create_project : ProjectRequest Float → W → Result (Project Float) × W
    create_project req =
        project_call post (utf8 "/v1/projects") (some (object (project_fields req)))

    unfoldable pub update_project : String → ProjectRequest Float → W → Result (Project Float) × W
    update_project id req = project_call put (project_path id) (some (object (project_fields req)))

  unfoldable pub delete_project : String → W → Result (Unit {0}) × W
  delete_project id = do_request platform c none tt delete (project_path id) none
