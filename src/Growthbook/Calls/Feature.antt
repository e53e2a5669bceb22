-- ===== src/Growthbook/Calls/Feature.antt =====
-- internal/clients/growthbook/feature.go: the methods of `Client`.
use provider_growthbook.Base.{String, false, Option, none, some, ◌++◌}
use provider_growthbook.Growthbook.Errors.{Result, ok, err}
use provider_growthbook.Growthbook.Text.{Bytes, utf8, path_escape}
use provider_growthbook.Growthbook.Json.{Json, object, feature_fields}
use provider_growthbook.Growthbook.Credentials.{Client}
use provider_growthbook.Growthbook.Http.{Method, get, post, delete, Platform, do_request}
use provider_growthbook.Growthbook.Feature.{Feature, FeatureRequest}

pub record FeatureEnvelope (Float : Type 0) : Type 0 where
  pub feature : Feature Float

abbrev pub empty_feature : {Float : Type 0} → Feature Float
empty_feature = record {
  id = "";
  archived = false;
  description = "";
  owner = "";
  project = "";
  value_type = "";
  default_value = "";
  tags = none;
  environments = none;
  rules = none;
  date_created = "";
  date_updated = "";
  revision = none;
}

unfoldable pub feature_path : String → Bytes
unfolding utf8 path_escape
feature_path id = utf8 "/v2/features/" ++ path_escape (utf8 id)

-- The request with what must not travel in an update taken out.
abbrev pub without_identity : {Float : Type 0} → FeatureRequest Float → FeatureRequest Float
without_identity req = record req { id = ""; value_type = "" }

module _ {Float W : Type 0} (platform : Platform Float W) (c : Client)
    (unmarshal : Bytes → Option (FeatureEnvelope Float)) where
  abbrev pub envelope_feature : Result (FeatureEnvelope Float) × W → Result (Feature Float) × W
  envelope_feature (ok out, w) = (ok out.feature, w)
  envelope_feature (err e, w) = (err e, w)

  -- One request whose answer is a feature envelope.
  abbrev pub feature_call : Method → Bytes → Option (Json Float) → W → Result (Feature Float) × W
  feature_call method path body w = envelope_feature (
      do_request platform c (some unmarshal) (record { feature = empty_feature }) method path body
        w)

  unfoldable pub get_feature : String → W → Result (Feature Float) × W
  get_feature id = feature_call get (feature_path id) none

  unfoldable pub create_feature : FeatureRequest Float → W → Result (Feature Float) × W
  create_feature req = feature_call post (utf8 "/v2/features") (some (object (feature_fields req)))

  unfoldable pub update_feature : String → FeatureRequest Float → W → Result (Feature Float) × W
  update_feature id req =
      feature_call post (feature_path id) (some (object (feature_fields (without_identity req))))

module _ {Float W : Type 0} (platform : Platform Float W) (c : Client) where
  unfoldable pub delete_feature : String → W → Result (Unit {0}) × W
  delete_feature id = do_request platform c none tt delete (feature_path id) none
