-- ===== src/Growthbook/Http/Laws.antt =====
-- When a request ends in an `APIError`, and what that error says.
use provider_growthbook.Base.{
  ℕ, false, Option, none, some, [], ◌∷◌, ◌≡◌, ◌≢◌, ◌↔◌, refl, sym, ap, subst, arith, nat_eq,
}
use provider_growthbook.Growthbook.Errors.{ApiError, Error, Result, ok, err, as_api_error}
use provider_growthbook.Growthbook.Text.{Bytes}
use provider_growthbook.Growthbook.Json.{Json}
use provider_growthbook.Growthbook.Credentials.{Client}
use provider_growthbook.Growthbook.Http.Bounds.{
  FirstBytes, take-FirstBytes, FirstBytes-take, OutOfRange, MessageOf, error_message-MessageOf,
  MessageOf-error_message,
}
use provider_growthbook.Growthbook.Http.{
  Method, HttpRequest, HttpResponse, Platform, body_limit, take, error_message, is_success,
  decode_success, decode_payload, decode_response, new_request, do_request, sent, received,
  unmarshalled, marshalled, checked, checked_request, assemble,
}

-- The `APIError` that a result carries, if any.
abbrev pub api_error_of {ℓ} : {A : Type ℓ} → Result A → Option ApiError
unfolding as_api_error
api_error_of (ok a) = none
api_error_of (err e) = as_api_error e

module _ {A : Type 0} (initial : A) where
  unmarshalled-no_api_error :
      (o : Option A) (ae : ApiError) → api_error_of (unmarshalled o) ≢ some ae
  unfolding as_api_error
  unmarshalled-no_api_error none ae h = cc
  unmarshalled-no_api_error (some a) ae h = cc

  success-no_api_error :
      (out : Option (Bytes → Option A)) (payload : Bytes) (ae : ApiError)
      → api_error_of (decode_success out initial payload) ≢ some ae
  unfolding as_api_error
  success-no_api_error none payload ae h = cc
  success-no_api_error (some unmarshal) [] ae h = cc
  success-no_api_error (some unmarshal) (c ∷ s) ae h =
      unmarshalled-no_api_error (unmarshal (c ∷ s)) ae h

module _ {Float W : Type 0} (platform : Platform Float W) where
  -- The response has a status outside 200 to 299 and a body that can be read, and the error has that
  -- status and the message of the first 4 MiB of that body.
  abbrev pub Refuses : HttpResponse → ApiError → Type 0
  Refuses resp ae =
      (body : Bytes) × (payload : Bytes) × (resp.body ≡ some body)
      × FirstBytes 4_194_304 body payload
      × OutOfRange resp.status_code
      × (ae.status_code ≡ resp.status_code)
      × MessageOf platform payload ae.message

  module _ {A : Type 0} (out : Option (Bytes → Option A)) (initial : A) where
    payload_refused_iff :
        (status : ℕ) (payload : Bytes) (ae : ApiError)
        → (api_error_of (decode_payload platform out initial status payload) ≡ some ae) ↔ (
            (is_success status ≡ false)
            × (ae ≡ record { status_code = status; message = error_message platform payload }))
    unfolding as_api_error
    payload_refused_iff status payload ae =
        ground (arith, success-no_api_error initial out payload ae)

    refusal_described :
        (status : ℕ) (payload : Bytes) (ae : ApiError)
        → api_error_of (decode_payload platform out initial status payload) ≡ some ae
        → OutOfRange status × (ae.status_code ≡ status) × MessageOf platform payload ae.message
    refusal_described status payload ae h =
        let (refused, same) = (payload_refused_iff status payload ae).0 h in
        let far : OutOfRange status = ground arith in
        (
          far,
          ap (λ e. e.status_code) same,
          subst (MessageOf platform payload) (sym (ap (λ e. e.message) same))
              (error_message-MessageOf platform payload),
        )

    described_refused :
        (status : ℕ) (payload : Bytes) (ae : ApiError)
        → OutOfRange status
        → ae.status_code ≡ status
        → MessageOf platform payload ae.message
        → api_error_of (decode_payload platform out initial status payload) ≡ some ae
    described_refused status payload ae far code message =
        let refused : is_success status ≡ false = ground arith in
        let text = MessageOf-error_message platform payload ae.message message in
        (payload_refused_iff status payload ae).1
          (refused, λ i. record { status_code = code i; message = text i })

    body_refused_iff :
        (status : ℕ) (body : Option Bytes) (ae : ApiError)
        → (api_error_of
              (decode_response platform out initial (record { status_code = status; body = body }))
            ≡ some ae)
          ↔ Refuses (record { status_code = status; body = body }) ae
    unfolding decode_response as_api_error body_limit
    body_refused_iff status none ae = (λ h. cc, λ (b, p, read, first, far, code, message). cc)
    body_refused_iff status (some body) ae = (
      λ h.
          let (far, code, message) = refusal_described status (take body_limit body) ae h in
          (body, take body_limit body, refl, take-FirstBytes body_limit body, far, code, message),
      λ (b, payload, read, first, far, code, message).
          let same : b ≡ body = ground arith in
          let cut : payload ≡ take body_limit body =
            FirstBytes-take body_limit body payload
              (subst (λ b. FirstBytes body_limit b payload) same first) in
          described_refused status (take body_limit body) ae far code
            (subst (λ p. MessageOf platform p ae.message) cut message),
    )

  module _ (c : Client) {A : Type 0} (out : Option (Bytes → Option A)) (initial : A) where
    -- The request could be built, the service answered it, and the answer is a refusal.
    abbrev pub IsRefused : Method → Bytes → Option (Json Float) → W → ApiError → Type 0
    IsRefused method path body w ae =
        (req : HttpRequest) × (resp : HttpResponse) × (new_request platform c method path body
          ≡ ok req)
        × ((platform.send req w).0 ≡ some resp)
        × Refuses resp ae

    received_refused_iff :
        (o : Option HttpResponse) (w : W) (ae : ApiError)
        → (api_error_of (received platform out initial (o, w)).0 ≡ some ae)
          ↔ ((resp : HttpResponse) × (o ≡ some resp) × Refuses resp ae)
    unfolding as_api_error
    received_refused_iff none w ae = (λ h. cc, λ (resp, e, k). cc)
    received_refused_iff (some resp) w ae = (
      λ h. (resp, refl, (body_refused_iff out initial resp.status_code resp.body ae).0 h),
      λ (resp', e, k).
          let same : resp' ≡ resp = ground arith in
          (body_refused_iff out initial resp.status_code resp.body ae).1
            (subst (λ r. Refuses r ae) same k),
    )

    sent_refused_iff :
        (m : Result HttpRequest) (w : W) (ae : ApiError)
        → ((e : Error) → m ≡ err e → as_api_error e ≡ none)
        → (api_error_of (sent platform out initial m w).0 ≡ some ae) ↔ (
            (req : HttpRequest) × (resp : HttpResponse) × (m ≡ ok req)
            × ((platform.send req w).0 ≡ some resp)
            × Refuses resp ae)
    unfolding as_api_error
    sent_refused_iff (err e) w ae plain_error =
        (λ h. absurd (cc (plain_error e refl)), λ (req, resp, built, answered, k). cc)
    sent_refused_iff (ok req) w ae plain_error =
        let iff = received_refused_iff (platform.send req w).0 (platform.send req w).1 ae in
        (
          λ h. let (resp, answered, k) = iff.0 h in (req, resp, refl, answered, k),
          λ (req', resp, built, answered, k).
              let same : req' ≡ req = ground arith in
              iff.1 (resp, subst (λ r. (platform.send r w).0 ≡ some resp) same answered, k),
        )

    checked_plain :
        (req : HttpRequest) (e : Error) → checked platform req ≡ err e → as_api_error e ≡ none
    unfolding as_api_error
    checked_plain req e h = ground arith

    marshalled_plain :
        (body : Option (Json Float)) (e : Error)
        → marshalled platform body ≡ err e
        → as_api_error e ≡ none
    unfolding as_api_error
    marshalled_plain body e h = ground arith

    checked_request_plain :
        (method : Method) (path : Bytes) (m : Result (Option Bytes)) (e : Error)
        → ((d : Error) → m ≡ err d → as_api_error d ≡ none)
        → checked_request platform c method path m ≡ err e
        → as_api_error e ≡ none
    unfolding as_api_error
    checked_request_plain method path (err d) e plain_error h = cc (plain_error d refl)
    checked_request_plain method path (ok b) e plain_error h =
        checked_plain (assemble platform c method path b) e h

    new_request_plain :
        (method : Method) (path : Bytes) (body : Option (Json Float)) (e : Error)
        → new_request platform c method path body ≡ err e
        → as_api_error e ≡ none
    unfolding new_request
    new_request_plain method path body e h =
        checked_request_plain method path (marshalled platform body) e (marshalled_plain body) h

    -- A request ends in an `APIError` exactly when it could be built, the service answered it with a
    -- status outside 200 to 299, and the body of the answer could be read; the error then has that
    -- status. Its message is the one that the first 4 MiB of the body name, or else the first 200
    -- bytes of these without the white space around them.
    pub do_request-IsRefused_iff :
        (method : Method) (path : Bytes) (body : Option (Json Float)) (w : W) (ae : ApiError)
        → (api_error_of (do_request platform c out initial method path body w).0 ≡ some ae)
          ↔ IsRefused method path body w ae
    unfolding do_request
    do_request-IsRefused_iff method path body w ae =
        sent_refused_iff (new_request platform c method path body) w ae
          (new_request_plain method path body)
