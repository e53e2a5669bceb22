-- ===== src/Feature/Requests.antt =====
-- What internal/controller/feature/feature.go sends through the client of internal/clients/growthbook:
-- where its HTTP requests go.
use provider_growthbook.Base.{
  String, Option, none, some, List, ◌≡◌, inl, inr, refl, sym, ap, ◌∙◌, subst, Bool-cases,
}
use provider_growthbook.Base.Lists.{All}
use provider_growthbook.Base.Float.{FloatOps}
use provider_growthbook.Apis.Feature.{Feature}
use provider_growthbook.Growthbook.Errors.{Result, ok, err, is_not_found, is_archive_required}
use provider_growthbook.Growthbook.Text.{Bytes, utf8}
use provider_growthbook.Growthbook.Json.{Json, object, feature_fields}
use provider_growthbook.Growthbook.Json.Laws.{text_member, feature_fields-members}
use provider_growthbook.Growthbook.Credentials.{Client}
use provider_growthbook.Growthbook.Feature.{Feature as ApiFeature, FeatureRequest}
use provider_growthbook.Growthbook.Http.{
  Method, get, post, HttpRequest, Platform, assemble, marshalled, do_request,
}
use provider_growthbook.Growthbook.Http.Record.{recording, do_request_log}
use provider_growthbook.Growthbook.Calls.Feature.{
  FeatureEnvelope, empty_feature, envelope_feature, feature_path, feature_call, get_feature,
  create_feature, update_feature, delete_feature,
}
use provider_growthbook.Feature.Convert.{create_request, update_request}
use provider_growthbook.Feature.Own.{
  IsOwn, Own, feature_path-NamesFeature, encoded_ok, create_request-id,
}
use provider_growthbook.Feature.External.{
  FeatureClient, api_client, archive_request, observe_result, observe, answered, created, create,
  updated, update, deleted_at_last, after_archiving, after_delete, delete,
}

module _ {Float W : Type 0} (platform : Platform Float W) (c : Client)
    (unmarshal : Bytes → Option (FeatureEnvelope Float)) (id : String) where
  envelope_world :
      (r : Result (FeatureEnvelope Float) × (List HttpRequest × W))
      → (envelope_feature (recording platform) c unmarshal r).1 ≡ r.1
  envelope_world (ok f, s) = refl
  envelope_world (err e, s) = refl

  feature_call-Own :
      (method : Method) (path : Bytes) (body : Option (Json Float)) (s : List HttpRequest × W)
      → ((b : Option Bytes)
          → marshalled (recording platform) body ≡ ok b
          → IsOwn platform c id (assemble platform c method path b))
      → Own platform c id s
      → Own platform c id (feature_call (recording platform) c unmarshal method path body s).1
  feature_call-Own method path body s fine h =
      subst (Own platform c id)
        (sym (
          envelope_world (
            do_request (recording platform) c (some unmarshal) (record { feature = empty_feature })
              method path body s)))
        (do_request_log platform c (IsOwn platform c id) (some unmarshal)
          (record { feature = empty_feature }) method path body s fine h)

  abbrev client : FeatureClient Float (List HttpRequest × W)
  client = api_client (recording platform) unmarshal c

  get-Own :
      (s : List HttpRequest × W)
      → Own platform c id s
      → Own platform c id (client.get_feature id s).1
  unfolding get_feature
  get-Own s =
      feature_call-Own get (feature_path id) none s
        (λ b e. (refl, inr (feature_path-NamesFeature c id)))

  create-Own :
      (req : FeatureRequest Float) (s : List HttpRequest × W)
      → req.id ≡ id
      → Own platform c id s
      → Own platform c id (client.create_feature req s).1
  unfolding create_feature
  create-Own req s named h =
      feature_call-Own post (utf8 "/v2/features") (some (object (feature_fields req))) s
        (λ b e.
          let (bytes, same, made) =
            encoded_ok platform (platform.marshal (object (feature_fields req))) b e in
          let id_sent = (feature_fields-members req).0 ∙ ap text_member named in
          (refl, inl (feature_fields req, bytes, refl, refl, same, made, id_sent)))
        h

  update-Own :
      (req : FeatureRequest Float) (s : List HttpRequest × W)
      → Own platform c id s
      → Own platform c id (client.update_feature id req s).1
  unfolding update_feature
  update-Own req s =
      feature_call-Own post (feature_path id) _ s
        (λ b e. (refl, inr (feature_path-NamesFeature c id)))

  delete-Own :
      (s : List HttpRequest × W)
      → Own platform c id s
      → Own platform c id (client.delete_feature id s).1
  unfolding delete_feature
  delete-Own s =
      do_request_log platform c (IsOwn platform c id) none tt Method.delete (feature_path id) none s
        (λ b e. (refl, inr (feature_path-NamesFeature c id)))

  deleted_at_last-Own :
      (r : Result (Unit {0}) × (List HttpRequest × W))
      → Own platform c id r.1
      → Own platform c id (deleted_at_last client r).1
  deleted_at_last-Own (ok _, s) h = h
  deleted_at_last-Own (err e, s) h = elim (Bool-cases (is_not_found e)) [
    | inl gone ↦ rw gone h
    | inr other ↦ rw other h
  ]

  after_archiving-Own :
      (r : Result (ApiFeature Float) × (List HttpRequest × W))
      → Own platform c id r.1
      → Own platform c id (after_archiving client id r).1
  after_archiving-Own (err e, s) h = h
  after_archiving-Own (ok _, s) h =
      deleted_at_last-Own (client.delete_feature id s) (delete-Own s h)

  after_delete-Own :
      (r : Result (Unit {0}) × (List HttpRequest × W))
      → Own platform c id r.1
      → Own platform c id (after_delete client id r).1
  after_delete-Own (ok _, s) h = h
  after_delete-Own (err e, s) h = elim (Bool-cases (is_not_found e)) [
    | inl gone ↦ rw gone h
    | inr other ↦ elim (Bool-cases (is_archive_required e)) [
      | inl archive ↦
          rw (other, archive)
            (after_archiving-Own (client.update_feature id archive_request s)
              (update-Own archive_request s h))
      | inr refused ↦ rw (other, refused) h
    ]
  ]

module _ {Float W : Type 0} ⦃N : FloatOps Float⦄ (client : FeatureClient Float W) where
  observe_result_world :
      (cr : Feature) (r : Result (ApiFeature Float) × W) → (observe_result client cr r).2 ≡ r.1
  observe_result_world cr (ok f, w) = refl
  observe_result_world cr (err e, w) = elim (Bool-cases (is_not_found e)) [
    | inl gone ↦ rw gone refl
    | inr other ↦ rw other refl
  ]

  answered_world :
      (message : String) (cr : Feature) (r : Result (ApiFeature Float) × W)
      → (answered client message cr r).2 ≡ r.1
  answered_world message cr (ok f, w) = refl
  answered_world message cr (err e, w) = refl

module _ {Float W : Type 0} ⦃N : FloatOps Float⦄ (platform : Platform Float W) (c : Client)
    (unmarshal : Bytes → Option (FeatureEnvelope Float)) where
  abbrev pub rest_client : FeatureClient Float (List HttpRequest × W)
  rest_client = api_client (recording platform) unmarshal c

  created-Own :
      (cr : Feature) (m : Result (FeatureRequest Float)) (s : List HttpRequest × W)
      → ((req : FeatureRequest Float) → m ≡ ok req → req.id ≡ cr.external_name)
      → Own platform c cr.external_name s
      → Own platform c cr.external_name (created rest_client cr m s).2
  created-Own cr (err e) s named h = h
  created-Own cr (ok req) s named h =
      subst (Own platform c cr.external_name)
        (sym (
          answered_world rest_client "cannot create feature" cr (rest_client.create_feature req s)))
        (create-Own platform c unmarshal cr.external_name req s (named req refl) h)

  updated-Own :
      (cr : Feature) (m : Result (FeatureRequest Float)) (s : List HttpRequest × W)
      → Own platform c cr.external_name s
      → Own platform c cr.external_name (updated rest_client cr m s).2
  updated-Own cr (err e) s h = h
  updated-Own cr (ok req) s h =
      subst (Own platform c cr.external_name)
        (sym (
          answered_world rest_client "cannot update feature" cr
            (rest_client.update_feature cr.external_name req s)))
        (update-Own platform c unmarshal cr.external_name req s h)

  -- Each request that Observe, Create, Update or Delete puts on the wire carries the key of the
  -- client to the client's own base URL. Its path is the one below the collection of features whose
  -- last segment a server reads back as the external name, or it is a POST to the collection with a
  -- JSON object that has the external name as its id, and no id where that name is empty. So no
  -- other feature is read, created or changed, whatever the service answers and whatever was sent
  -- before in this way.
  pub methods-IsOwn :
      (cr : Feature) (log : List HttpRequest) (w : W)
      → All (IsOwn platform c cr.external_name) log
      → All (IsOwn platform c cr.external_name) (observe rest_client cr (log, w)).2.0
        × All (IsOwn platform c cr.external_name) (create rest_client cr (log, w)).2.0
        × All (IsOwn platform c cr.external_name) (update rest_client cr (log, w)).2.0
        × All (IsOwn platform c cr.external_name) (delete rest_client cr (log, w)).1.0
  unfolding observe create update delete
  methods-IsOwn cr log w h =
      let id = cr.external_name in
      (
        subst (Own platform c id)
            (sym (observe_result_world rest_client cr (rest_client.get_feature id (log, w))))
            (get-Own platform c unmarshal id (log, w) h),
        created-Own cr (create_request id cr.for_provider cr.init_provider) (log, w)
            (λ req. create_request-id id cr.for_provider cr.init_provider req) h,
        updated-Own cr (update_request cr.for_provider) (log, w) h,
        after_delete-Own platform c unmarshal id (rest_client.delete_feature id (log, w))
            (delete-Own platform c unmarshal id (log, w) h),
      )
