-- ===== src/Feature/Absence.antt =====
-- Observe of internal/controller/feature/feature.go over the client of
-- internal/clients/growthbook: which answer of the service counts as absence.
use provider_growthbook.Base.{
  String, Bool, true, false, Option, none, some, ◌≡◌, ◌⊎◌, ◌↔◌, refl, subst, arith, nat_eq,
}
use provider_growthbook.Base.Float.{FloatOps}
use provider_growthbook.Apis.Feature.{Feature}
use provider_growthbook.Controller.Managed.{absent}
use provider_growthbook.Growthbook.Text.{Bytes, utf8, contains, to_lower}
use provider_growthbook.Growthbook.Errors.{
  ApiError, Error, Result, ok, err, as_api_error, is_not_found, not_found_error,
}
use provider_growthbook.Growthbook.Credentials.{Client}
use provider_growthbook.Growthbook.Http.{get, Platform, do_request}
use provider_growthbook.Growthbook.Http.Laws.{api_error_of, IsRefused, do_request-IsRefused_iff}
use provider_growthbook.Growthbook.Feature.{Feature as ApiFeature}
use provider_growthbook.Growthbook.Calls.Feature.{
  FeatureEnvelope, empty_feature, envelope_feature, feature_path, get_feature,
}
use provider_growthbook.Feature.External.{FeatureClient, api_client, observe_result, observe}

-- A 404, or a 400 whose message says in any case that something was not found.
abbrev pub SaysAbsent : ApiError → Type 0
SaysAbsent ae =
    (ae.status_code ≡ 404)
    ⊎ ((ae.status_code ≡ 400)
        × ((contains (to_lower ae.message) (utf8 "could not find") ≡ true)
            ⊎ (contains (to_lower ae.message) (utf8 "not found") ≡ true)))

not_found_error-SaysAbsent_iff : (ae : ApiError) → (not_found_error ae ≡ true) ↔ SaysAbsent ae
not_found_error-SaysAbsent_iff ae = ground arith

abbrev classified : Option ApiError → Bool
classified o = elim o [ none ↦ false | some ae ↦ not_found_error ae ]

classified_iff :
    (o : Option ApiError)
    → (classified o ≡ true) ↔ ((ae : ApiError) × (o ≡ some ae) × SaysAbsent ae)
classified_iff none = (λ h. ground arith, λ (ae, e, h). ground arith)
classified_iff (some ae) = (
  λ h. (ae, refl, (not_found_error-SaysAbsent_iff ae).0 h),
  λ (ae', e, h).
      let same : ae' ≡ ae = ground arith in
      subst (λ a. not_found_error a ≡ true) same ((not_found_error-SaysAbsent_iff ae').1 h),
)

pub is_not_found_iff :
    (e : Error)
    → (is_not_found e ≡ true) ↔ ((ae : ApiError) × (as_api_error e ≡ some ae) × SaysAbsent ae)
unfolding is_not_found
is_not_found_iff e = classified_iff (as_api_error e)

module _ {Float W : Type 0} ⦃N : FloatOps Float⦄ where
  absent_iff :
      (client : FeatureClient Float W) (cr : Feature) (r : Result (ApiFeature Float) × W)
      → ((observe_result client cr r).0 ≡ ok absent)
        ↔ ((e : Error) × (r.0 ≡ err e) × (is_not_found e ≡ true))
  absent_iff client cr (ok f, w) = (λ h. ground arith, λ (e, h, k). ground arith)
  absent_iff client cr (err e, w) = (
    λ h. (e, refl, ground arith),
    λ (d, h, k).
        let same : d ≡ e = ground arith in
        let gone : is_not_found e ≡ true = subst (λ x. is_not_found x ≡ true) same k in
        rw gone refl,
  )

api_error_iff :
    {A : Type 0} (r : Result A) (ae : ApiError)
    → (api_error_of r ≡ some ae) ↔ ((e : Error) × (r ≡ err e) × (as_api_error e ≡ some ae))
unfolding as_api_error
api_error_iff (ok a) ae = (λ h. ground arith, λ (e, h, k). ground arith)
api_error_iff (err e) ae = (
  λ h. (e, refl, h),
  λ (d, h, k). let same : d ≡ e = ground arith in subst (λ x. as_api_error x ≡ some ae) same k,
)

module _ {Float W : Type 0} ⦃N : FloatOps Float⦄ (platform : Platform Float W) (c : Client)
    (unmarshal : Bytes → Option (FeatureEnvelope Float)) where
  envelope_err :
      (r : Result (FeatureEnvelope Float) × W) (e : Error)
      → ((envelope_feature platform c unmarshal r).0 ≡ err e) ↔ (r.0 ≡ err e)
  envelope_err (ok f, w) e = ground arith
  envelope_err (err d, w) e = ground arith

  -- The answer to the one request of Observe is a refusal that says that the feature is not there.
  abbrev pub IsAbsent : String → W → Type 0
  IsAbsent id w =
      (ae : ApiError) × SaysAbsent ae
      × IsRefused platform c (some unmarshal) (record { feature = empty_feature }) get
          (feature_path id) none w ae

  -- Observe over the REST API reports a feature as absent exactly when its GET request could be
  -- built and was answered by a 404, or by a 400 whose message says in any case that something could
  -- not be found, with a body that could be read. No failure to build the request, to send it, or to
  -- read or decode its answer, and no other status, counts as absence.
  pub observe-IsAbsent_iff :
      (cr : Feature) (w : W)
      → ((observe (api_client platform unmarshal c) cr w).0 ≡ ok absent)
        ↔ IsAbsent cr.external_name w
  unfolding observe get_feature
  observe-IsAbsent_iff cr w =
      let client = api_client platform unmarshal c in
      let initial : FeatureEnvelope Float = record { feature = empty_feature } in
      let id = cr.external_name in
      let r = do_request platform c (some unmarshal) initial get (feature_path id) none w in
      let iff = absent_iff client cr (client.get_feature id w) in
      let refused =
        do_request-IsRefused_iff platform c (some unmarshal) initial get (feature_path id) none w in
      (
        λ h.
            let (e, failed, gone) = iff.0 h in
            let (ae, same, says) = (is_not_found_iff e).0 gone in
            (
              ae,
              says,
              (refused ae).0 ((api_error_iff r.0 ae).1 (e, (envelope_err r e).0 failed, same)),
            ),
        λ (ae, says, k).
            let (e, failed, same) = (api_error_iff r.0 ae).0 ((refused ae).1 k) in
            iff.1 (e, (envelope_err r e).1 failed, (is_not_found_iff e).1 (ae, same, says)),
      )
