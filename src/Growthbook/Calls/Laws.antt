-- ===== src/Growthbook/Calls/Laws.antt =====
-- `UpdateFeature` of internal/clients/growthbook/feature.go and its body.
use provider_growthbook.Base.{String, Option, none, some, ◌≡◌, refl}
use provider_growthbook.Growthbook.Text.{Bytes}
use provider_growthbook.Growthbook.Json.{Fields, object, feature_fields}
use provider_growthbook.Growthbook.Json.Laws.{member, feature_fields-members}
use provider_growthbook.Growthbook.Credentials.{Client}
use provider_growthbook.Growthbook.Http.{post, Platform}
use provider_growthbook.Growthbook.Feature.{FeatureRequest}
use provider_growthbook.Growthbook.Calls.Feature.{
  FeatureEnvelope, feature_path, feature_call, without_identity, update_feature,
}

module _ {Float W : Type 0} (platform : Platform Float W) (c : Client)
    (unmarshal : Bytes → Option (FeatureEnvelope Float)) where
  -- An update is one POST to the path of the feature, with a body in which neither the id nor the
  -- value type is a member, whatever the request says of them.
  pub update_feature-omits :
      (id : String) (req : FeatureRequest Float) (w : W)
      → (fs : Fields Float) × (update_feature platform c unmarshal id req w
          ≡ feature_call platform c unmarshal post (feature_path id) (some (object fs)) w)
        × (member "id" fs ≡ none)
        × (member "valueType" fs ≡ none)
  unfolding update_feature
  update_feature-omits id req w =
      let members = feature_fields-members (without_identity req) in
      (feature_fields (without_identity req), refl, members.0, members.1)
