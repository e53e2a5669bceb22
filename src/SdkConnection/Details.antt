-- ===== src/SdkConnection/Details.antt =====
-- What internal/controller/sdkconnection/sdkconnection.go publishes of a connection, and when.
use provider_growthbook.Base.{
  String, Bool, Bool-cases, [], true, false, ◌⊎◌, inl, inr, Option, none, some, ◌≡◌, ◌≢◌, ap, sym,
  subst, ◌∙◌, ◌↔◌, refl, arith, ◌==◌, string_eq, if◌then◌else◌,
}
use provider_growthbook.Base.Lists.{lookup, All}
use provider_growthbook.Apis.SdkConnection.{SdkConnection}
use provider_growthbook.Controller.Managed.{ExternalObservation, ConnectionDetails}
use provider_growthbook.Growthbook.Text.{Bytes, utf8}
use provider_growthbook.Growthbook.Errors.{Result, ok, err}
use provider_growthbook.Growthbook.SdkConnection.{
  SdkConnection as ApiConnection, SdkConnectionRequest,
}
use provider_growthbook.SdkConnection.Convert.{create_request, is_up_to_date}
use provider_growthbook.SdkConnection.Matches.{ConnectionMatches}
use provider_growthbook.SdkConnection.Drift.{is_up_to_date-ConnectionMatches_iff}
use text.Mathlib.TextEquality.{eq_iff}
use provider_growthbook.SdkConnection.External.{
  SdkConnectionClient, detail, connection_details, observed, observe_result, observe, create,
  created,
}

abbrev pub published : String → Option Bytes
published v = if v == "" then none else some (utf8 v)

-- One of the three keys that the connection secret can have.
abbrev pub IsDetailKey : String → Type 0
IsDetailKey k = (k ≡ "key") ⊎ ((k ≡ "proxySigningKey") ⊎ (k ≡ "proxyHost"))

detail-IsDetailKey :
    (k v : String) (cd : ConnectionDetails)
    → IsDetailKey k
    → All (λ entry. IsDetailKey entry.0) cd
    → All (λ entry. IsDetailKey entry.0) (detail k v cd)
detail-IsDetailKey k v cd h all = elim (Bool-cases (v == "")) [
  | inl empty ↦ rw empty all
  | inr set ↦ rw set (h, all)
]

details-IsDetailKey :
    (sc : ApiConnection) → All (λ entry. IsDetailKey entry.0) (connection_details sc)
unfolding connection_details
details-IsDetailKey sc =
    let host = detail "proxyHost" sc.proxy_host [] in
    detail-IsDetailKey "key" sc.key (detail "proxySigningKey" sc.proxy_signing_key host) (inl refl)
      (detail-IsDetailKey "proxySigningKey" sc.proxy_signing_key host (inr (inl refl))
        (detail-IsDetailKey "proxyHost" sc.proxy_host [] (inr (inr refl)) tt))

-- The connection secret has an entry for the client key, for the signing key of the proxy and for
-- its host, each exactly when the service reports a text that is not empty, and the entry is the
-- bytes of that text. It has no other entry, so none for an encryption key, and it is the same
-- whether the proxy is enabled or not.
pub connection_details-lookup :
    (sc : ApiConnection) (b : Bool)
    → (lookup "key" (connection_details sc) ≡ published sc.key)
      × (lookup "proxySigningKey" (connection_details sc) ≡ published sc.proxy_signing_key)
      × (lookup "proxyHost" (connection_details sc) ≡ published sc.proxy_host)
      × (lookup "encryptionKey" (connection_details sc) ≡ none)
      × All (λ entry. IsDetailKey entry.0) (connection_details sc)
      × (connection_details (record sc { proxy_enabled = b }) ≡ connection_details sc)
unfolding connection_details
connection_details-lookup sc b =
    (ground arith, ground arith, ground arith, ground arith, details-IsDetailKey sc, refl)

module _ {W : Type 0} (client : SdkConnectionClient W) where
  -- POST as GrowthBook documents it: the stored connection has an id, and a read of that id
  -- returns what the creation returned.
  abbrev pub ReadsBack : Type 0
  ReadsBack =
      (req : SdkConnectionRequest) (w w' : W) (sc : ApiConnection)
      → client.create_sdk_connection req w ≡ (ok sc, w')
      → (sc.id ≢ "") × ((client.get_sdk_connection sc.id w').0 ≡ ok sc)

  created_ok :
      (cr after : SdkConnection) (r : Result ApiConnection × W) (d : ConnectionDetails) (w' : W)
      → created client cr r ≡ (ok d, after, w')
      → (sc : ApiConnection) × (r ≡ (ok sc, w'))
        × (connection_details sc ≡ d)
        × (after.external_name ≡ sc.id)
        × (after.for_provider ≡ cr.for_provider)
  created_ok cr after (ok sc, w) d w' h = (
    sc,
    ap (λ v. (ok sc, v)) (ap (λ t. t.2) h),
    ground arith,
    sym (ap (λ t. t.1.external_name) h),
    sym (ap (λ t. t.1.for_provider) h),
  )
  created_ok cr after (err e, w) d w' h = ground arith

  pub found_details :
      (after : SdkConnection) (r : Result ApiConnection × W) (sc : ApiConnection)
      → r.0 ≡ ok sc
      → (o : ExternalObservation) × ((observe_result client after r).0 ≡ ok o)
        × (o.resource_exists ≡ true)
        × (o.connection_details ≡ connection_details sc)
        × (o.resource_up_to_date ≡ is_up_to_date after.for_provider sc)
  found_details after (ok s, w) sc h =
      ((observed after s).0, refl, refl, ground arith, ground arith)
  found_details after (err e, w) sc h = ground arith

  -- After a creation that succeeds, Observe finds the connection under the name that the creation
  -- recorded, publishes the same details, and reports it up to date exactly when the service stored
  -- what the spec asks for, over a service that reads back what it created.
  pub observe-create :
      (cr after : SdkConnection) (w w' : W) (d : ConnectionDetails)
      → ReadsBack
      → create client cr w ≡ (ok d, after, w')
      → (sc : ApiConnection) × ((client.get_sdk_connection after.external_name w').0 ≡ ok sc)
        × (o : ExternalObservation) × ((observe client after w').0 ≡ ok o)
        × (o.resource_exists ≡ true)
        × (o.connection_details ≡ d)
        × ((o.resource_up_to_date ≡ true) ↔ ConnectionMatches cr.for_provider sc)
  unfolding create observe
  observe-create cr after w w' d reads h =
      let (sc, sent, details, named, spec) =
        created_ok cr after
          (client.create_sdk_connection (create_request cr.for_provider cr.init_provider) w) d w'
          h in
      let (has_id, read) = reads (create_request cr.for_provider cr.init_provider) w w' sc sent in
      let there : (client.get_sdk_connection after.external_name w').0 ≡ ok sc =
        ap (λ id. (client.get_sdk_connection id w').0) named ∙ read in
      let (o, found, exists, same, fresh) =
        found_details after (client.get_sdk_connection after.external_name w') sc there in
      let nonempty : (after.external_name == "") ≡ false =
        ground (arith, eq_iff after.external_name "", has_id) in
      (
        sc,
        there,
        o,
        rw nonempty found,
        exists,
        same ∙ details,
        subst (λ b. (b ≡ true) ↔ ConnectionMatches cr.for_provider sc)
            (ap (λ p. is_up_to_date p sc) (sym spec) ∙ sym fresh)
            (is_up_to_date-ConnectionMatches_iff cr.for_provider sc),
      )
