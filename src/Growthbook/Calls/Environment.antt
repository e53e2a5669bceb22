-- ===== src/Growthbook/Calls/Environment.antt =====
-- internal/clients/growthbook/environment.go: the methods of `Client`.
use provider_growthbook.Base.{
  String, false, Option, none, some, List, [], ◌∷◌, ◌++◌, ◌==◌, string_eq, if◌then◌else◌,
}
use provider_growthbook.Base.Lists.{elems}
use provider_growthbook.Growthbook.Errors.{Result, ok, err, Error, api_error}
use provider_growthbook.Growthbook.Text.{Bytes, utf8, path_escape}
use provider_growthbook.Growthbook.Json.{Json, object, environment_fields}
use provider_growthbook.Growthbook.Credentials.{Client}
use provider_growthbook.Growthbook.Http.{Method, get, post, put, delete, Platform, do_request}
use provider_growthbook.Growthbook.Environment.{Environment, EnvironmentRequest}

pub record EnvironmentEnvelope : Type 0 where
  pub environment : Environment

pub record EnvironmentListEnvelope : Type 0 where
  pub environments : Option (List Environment)

abbrev empty_environment : Environment
empty_environment = record {
  id = "";
  description = "";
  toggle_on_list = false;
  default_state = false;
  projects = none;
  parent = "";
}

abbrev pub environment_path : String → Bytes
unfolding utf8 path_escape
environment_path id = utf8 "/v1/environments/" ++ path_escape (utf8 id)

-- The loop of `GetEnvironment`: the first environment of that id.
unfoldable pub find_environment : String → List Environment → Option Environment
find_environment id [] = none
find_environment id (e ∷ envs) = if e.id == id then some e else find_environment id envs

abbrev pub environment_not_found : String → Error
unfolding utf8
environment_not_found id =
    api_error (record {
      status_code = 404;
      message = utf8 "environment " ++ (utf8 id ++ utf8 " not found");
    })

abbrev pub found_or_error : String → Option Environment → Result Environment
found_or_error id none = err (environment_not_found id)
found_or_error id (some e) = ok e

module _ {Float W : Type 0} (platform : Platform Float W) (c : Client) where
  module _ (unmarshal : Bytes → Option EnvironmentListEnvelope) where
    abbrev listed : Result EnvironmentListEnvelope × W → Result (Option (List Environment)) × W
    listed (ok out, w) = (ok out.environments, w)
    listed (err e, w) = (err e, w)

    unfoldable pub list_environments : W → Result (Option (List Environment)) × W
    list_environments w = listed (
        do_request platform c (some unmarshal) (record { environments = none }) get
          (utf8 "/v1/environments") none w)

    abbrev pub select : String → Result (Option (List Environment)) × W → Result Environment × W
    select id (ok envs, w) = (found_or_error id (find_environment id (elems envs)), w)
    select id (err e, w) = (err e, w)

    unfoldable pub get_environment : String → W → Result Environment × W
    get_environment id w = select id (list_environments w)

  module _ (unmarshal : Bytes → Option EnvironmentEnvelope) where
    abbrev envelope_environment : Result EnvironmentEnvelope × W → Result Environment × W
    envelope_environment (ok out, w) = (ok out.environment, w)
    envelope_environment (err e, w) = (err e, w)

    abbrev environment_call : Method → Bytes → Option (Json Float) → W → Result Environment × W
    environment_call method path body w = envelope_environment (
        do_request platform c (some unmarshal) (record { environment = empty_environment }) method
          path body w)

    unfoldable pub create_environment : EnvironmentRequest → W → Result Environment × W
    create_environment req =
        environment_call post (utf8 "/v1/environments") (some (object (environment_fields req)))

    unfoldable pub update_environment : String → EnvironmentRequest → W → Result Environment × W
    update_environment id req =
        environment_call put (environment_path id)
          (some (object (environment_fields (record req { id = ""; parent = none }))))

  unfoldable pub delete_environment : String → W → Result (Unit {0}) × W
  delete_environment id = do_request platform c none tt delete (environment_path id) none
