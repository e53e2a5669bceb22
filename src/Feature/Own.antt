-- ===== src/Feature/Own.antt =====
-- Which requests of internal/controller/feature are about one feature, and how its id stands in them.
use provider_growthbook.Base.{String, Option, none, some, List, ◌++◌, ◌≡◌, ◌⊎◌, refl, arith}
use provider_growthbook.Base.Lists.{All}
use provider_growthbook.Base.Float.{FloatOps}
use provider_growthbook.Apis.Feature.{FeatureParameters, FeatureInitParameters}
use provider_growthbook.Growthbook.Errors.{Result, ok, err}
use provider_growthbook.Growthbook.Text.{Bytes, utf8, path_escape}
use provider_growthbook.Growthbook.Text.Utf8.{utf8-bound}
use provider_growthbook.Growthbook.Text.Paths.{
  path_unescape, path_unescape-path_escape, IsSegmentByte, path_escape-IsSegment,
}
use provider_growthbook.Growthbook.Json.{Fields, object}
use provider_growthbook.Growthbook.Json.Laws.{member, text_member}
use provider_growthbook.Growthbook.Credentials.{Client}
use provider_growthbook.Growthbook.Feature.{FeatureRequest}
use provider_growthbook.Growthbook.Http.{post, HttpRequest, Platform, encoded}
use provider_growthbook.Growthbook.Calls.Feature.{feature_path}
use provider_growthbook.Feature.Convert.{create_request, update_request}
use provider_growthbook.Feature.Merge.{CreateIs, create_request-IsMerged}

-- The URL is that of one feature: below the collection stands one segment of a path, which a server
-- reads back as the id.
abbrev pub NamesFeature : Client → String → Bytes → Type 0
NamesFeature c id url =
    (segment : Bytes) × (url ≡ c.base_url ++ (utf8 "/v2/features/" ++ segment))
    × All IsSegmentByte segment
    × (path_unescape segment ≡ some (utf8 id))

module _ {Float W : Type 0} (platform : Platform Float W) where
  -- A POST to the collection of features, with a JSON object whose member "id" is the id, and is left
  -- out where the id is empty.
  abbrev pub CreatesFeature : Client → String → HttpRequest → Type 0
  CreatesFeature c id r =
      (fs : Fields Float) × (b : Bytes) × (r.method ≡ post)
      × (r.url ≡ c.base_url ++ utf8 "/v2/features")
      × (r.body ≡ some b)
      × (platform.marshal (object fs) ≡ some b)
      × (member "id" fs ≡ text_member id)

  -- The request carries the key of the client to the client's base URL, and creates the feature of that
  -- id or is about it.
  abbrev pub IsOwn : Client → String → HttpRequest → Type 0
  IsOwn c id r =
      (r.authorization ≡ utf8 "Bearer " ++ c.api_key)
      × (CreatesFeature c id r ⊎ NamesFeature c id r.url)

  abbrev pub Own : Client → String → List HttpRequest × W → Type 0
  Own c id s = All (IsOwn c id) s.0

pub feature_path-NamesFeature :
    (c : Client) (id : String) → NamesFeature c id (c.base_url ++ feature_path id)
unfolding feature_path utf8 path_escape
feature_path-NamesFeature c id = (
  path_escape (utf8 id),
  refl,
  path_escape-IsSegment (utf8 id) (utf8-bound id),
  path_unescape-path_escape (utf8 id) (utf8-bound id),
)

module _ {Float W : Type 0} (platform : Platform Float W) where
  pub encoded_ok :
      (o : Option Bytes) (b : Option Bytes)
      → encoded platform o ≡ ok b
      → (s : Bytes) × (b ≡ some s) × (o ≡ some s)
  encoded_ok none b h = ground arith
  encoded_ok (some s) b h = (s, ground arith, refl)

module _ {Float : Type 0} ⦃N : FloatOps Float⦄ where
  CreateIs-id :
      (id : String) (merged : FeatureParameters) (m created : Result (FeatureRequest Float))
      (req : FeatureRequest Float)
      → CreateIs id merged m created
      → created ≡ ok req
      → req.id ≡ id
  CreateIs-id id merged (ok sent) made req h e = ground arith
  CreateIs-id id merged (err d) made req h e = ground arith

  pub create_request-id :
      (id : String) (p : FeatureParameters) (ip : FeatureInitParameters)
      (req : FeatureRequest Float)
      → create_request id p ip ≡ ok req
      → req.id ≡ id
  create_request-id id p ip req built =
      let (merged, m, made) = create_request-IsMerged Float id p ip in
      CreateIs-id id merged (update_request merged) (create_request id p ip) req made built
