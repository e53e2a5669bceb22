-- ===== src/Growthbook/Http/Record.antt =====
-- Which requests `do` of internal/clients/growthbook/client.go puts on the wire.
use provider_growthbook.Base.{Option, none, some, List, ◌∷◌, ◌≡◌, refl, sym, subst, arith}
use provider_growthbook.Base.Lists.{All}
use provider_growthbook.Growthbook.Errors.{Result, ok, err}
use provider_growthbook.Growthbook.Text.{Bytes}
use provider_growthbook.Growthbook.Json.{Json}
use provider_growthbook.Growthbook.Credentials.{Client}
use provider_growthbook.Growthbook.Http.{
  Method, HttpRequest, HttpResponse, Platform, do_request, new_request, sent, received, checked,
  checked_request, marshalled, assemble,
}

abbrev kept :
    {W : Type 0}
    → HttpRequest
    → List HttpRequest
    → Option HttpResponse × W
    → Option HttpResponse × (List HttpRequest × W)
kept req log (r, w) = (r, (req ∷ log, w))

module _ {Float W : Type 0} where
  -- The network with a log of the requests that it was sent, the last one first.
  abbrev pub recording : Platform Float W → Platform Float (List HttpRequest × W)
  recording platform = record {
    marshal = platform.marshal;
    request_is_valid = platform.request_is_valid;
    send = λ req s. kept req s.0 (platform.send req s.1);
    message_of = platform.message_of;
  }

module _ {Float W : Type 0} (platform : Platform Float W) (c : Client) where
  checked_assembled : (req r : HttpRequest) → checked platform req ≡ ok r → r ≡ req
  checked_assembled req r h = ground arith

  request_assembled :
      (method : Method) (path : Bytes) (m : Result (Option Bytes)) (r : HttpRequest)
      → checked_request platform c method path m ≡ ok r
      → (b : Option Bytes) × (m ≡ ok b) × (r ≡ assemble platform c method path b)
  request_assembled method path (err e) r h = ground arith
  request_assembled method path (ok b) r h =
      (b, refl, checked_assembled (assemble platform c method path b) r h)

module _ {Float W : Type 0} (platform : Platform Float W) (c : Client) where
  module _ (P : HttpRequest → Type 0) {A : Type 0} (out : Option (Bytes → Option A))
      (initial : A) where
    received_log :
        (r : Option HttpResponse × (List HttpRequest × W))
        → (received (recording platform) out initial r).1 ≡ r.1
    received_log (none, s) = refl
    received_log (some resp, s) = refl

    sent_log :
        (m : Result HttpRequest) (s : List HttpRequest × W)
        → ((r : HttpRequest) → m ≡ ok r → P r)
        → All P s.0
        → All P (sent (recording platform) out initial m s).1.0
    sent_log (err e) s fine h = h
    sent_log (ok req) s fine h =
        subst (λ t. All P t.0) (sym (received_log ((recording platform).send req s)))
          (fine req refl, h)

    -- A property of every request that can be assembled for a method, a path and the bytes of a body
    -- holds of all that is on the wire afterwards, if it held of all before.
    pub do_request_log :
        (method : Method) (path : Bytes) (body : Option (Json Float)) (s : List HttpRequest × W)
        → ((b : Option Bytes)
            → marshalled (recording platform) body ≡ ok b
            → P (assemble platform c method path b))
        → All P s.0
        → All P (do_request (recording platform) c out initial method path body s).1.0
    unfolding do_request new_request
    do_request_log method path body s fine h =
        sent_log (new_request (recording platform) c method path body) s
          (λ r e.
            let (b, made, same) =
              request_assembled (recording platform) c method path
                (marshalled (recording platform) body) r e in
            subst P (sym same) (fine b made))
          h
