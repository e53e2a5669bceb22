-- ===== src/Growthbook/Http/Bounds.antt =====
-- How much of an answer `decodeResponse` and `errorMessage` of internal/clients/growthbook/client.go
-- look at, and how long the message of an `APIError` is.
use mathlib.Core.List.{append_assoc}
use provider_growthbook.Base.{
  ℕ, zero, suc, ◌≤◌, false, Option, none, some, [], ◌∷◌, ◌++◌, ◌≡◌, ◌≢◌, ◌⊎◌, inl, inr, refl,
  Bool-cases, true, ◌<◌, nat_eq, ◌∙◌, ap, arith,
}
use provider_growthbook.Base.Lists.{length}
use provider_growthbook.Growthbook.Text.{Bytes, trim_space}
use provider_growthbook.Growthbook.Text.Trim.{IsPart, trim_space-IsPart}
use provider_growthbook.Growthbook.Errors.{Result, ok, err, api_error, wrapped, plain}
use provider_growthbook.Growthbook.Http.{
  Platform, body_limit, take, raw_message, message_or_raw, error_message, is_success, unmarshalled,
  decode_success, decode_payload, decode_response,
}

-- `p` is the first `n` bytes of `s`, or all of it where it is shorter.
abbrev pub FirstBytes : ℕ → Bytes → Bytes → Type 0
FirstBytes n s p =
    (rest : Bytes) × (s ≡ p ++ rest) × (((rest ≡ []) × (length p ≤ n)) ⊎ (length p ≡ n))

-- A status outside 200 to 299.
abbrev pub OutOfRange : ℕ → Type 0
OutOfRange status = (status < 200) ⊎ (299 < status)

length-take : (n : ℕ) (s : Bytes) → length (take n s) ≤ n
length-take zero s = omega arith
length-take (suc n) [] = omega arith
length-take (suc n) (c ∷ s) = let h = length-take n s in omega arith

one_more : (c : ℕ) (n : ℕ) (s p : Bytes) → FirstBytes n s p → FirstBytes (suc n) (c ∷ s) (c ∷ p)
one_more c n s p (rest, e, inl (none_left, short)) =
    (rest, ap (◌∷◌ c) e, inl (none_left, omega arith))
one_more c n s p (rest, e, inr full) = (rest, ap (◌∷◌ c) e, inr (ap suc full))

pub take-FirstBytes : (n : ℕ) (s : Bytes) → FirstBytes n s (take n s)
take-FirstBytes zero s = (s, refl, inr refl)
take-FirstBytes (suc n) [] = ([], refl, inl (refl, omega arith))
take-FirstBytes (suc n) (c ∷ s) = one_more c n s (take n s) (take-FirstBytes n s)

pub FirstBytes-take : (n : ℕ) (s p : Bytes) → FirstBytes n s p → p ≡ take n s
FirstBytes-take zero s [] h = refl
FirstBytes-take zero s (c ∷ p) (rest, e, inl (none_left, short)) = absurd (omega arith)
FirstBytes-take zero s (c ∷ p) (rest, e, inr full) = absurd (omega arith)
FirstBytes-take (suc n) [] [] h = refl
FirstBytes-take (suc n) [] (c ∷ p) (rest, e, h) = absurd (ground arith)
FirstBytes-take (suc n) (c ∷ s) [] (rest, e, inl (none_left, short)) = absurd (ground arith)
FirstBytes-take (suc n) (c ∷ s) [] (rest, e, inr full) = absurd (omega arith)
FirstBytes-take (suc n) (c ∷ s) (d ∷ p) (rest, e, inl (none_left, short)) =
    let tails : s ≡ p ++ rest = ground arith in
    let heads : d ≡ c = ground arith in
    let same = FirstBytes-take n s p (rest, tails, inl (none_left, omega arith)) in
    λ i. heads i ∷ same i
FirstBytes-take (suc n) (c ∷ s) (d ∷ p) (rest, e, inr full) =
    let tails : s ≡ p ++ rest = ground arith in
    let heads : d ≡ c = ground arith in
    let same = FirstBytes-take n s p (rest, tails, inr (omega arith)) in λ i. heads i ∷ same i

take-prefix : (n : ℕ) (s : Bytes) → (after : Bytes) × (s ≡ take n s ++ after)
take-prefix zero s = (s, refl)
take-prefix (suc n) [] = ([], refl)
take-prefix (suc n) (c ∷ s) = let (after, e) = take-prefix n s in (after, ap (◌∷◌ c) e)

raw_message-IsPart : (payload : Bytes) → IsPart (raw_message payload) payload
raw_message-IsPart payload =
    let (before, after, e) = trim_space-IsPart payload in
    let (cut, h) = take-prefix 200 (trim_space payload) in
    (
      before,
      cut ++ after,
      e
          ∙ ap (λ t. before ++ (t ++ after)) h
          ∙ ap (λ t. before ++ t) (append_assoc (raw_message payload) cut after),
    )

module _ {Float W : Type 0} (platform : Platform Float W) where
  -- The payload has no message that can be read, or an empty one.
  abbrev pub HasNoMessage : Bytes → Type 0
  HasNoMessage payload =
      (platform.message_of payload ≡ none) ⊎ (platform.message_of payload ≡ some [])

  -- The message of a refusal: the one that the payload names, or else the first 200 bytes of the
  -- payload without the white space around it.
  abbrev pub MessageOf : Bytes → Bytes → Type 0
  MessageOf payload m =
      ((platform.message_of payload ≡ some m) × (m ≢ []))
      ⊎ (HasNoMessage payload × FirstBytes 200 (trim_space payload) m)

  message_or_raw-MessageOf :
      (payload : Bytes) (o : Option Bytes)
      → platform.message_of payload ≡ o
      → MessageOf payload (message_or_raw o payload)
  message_or_raw-MessageOf payload none e = inr (inl e, take-FirstBytes 200 (trim_space payload))
  message_or_raw-MessageOf payload (some []) e =
      inr (inr e, take-FirstBytes 200 (trim_space payload))
  message_or_raw-MessageOf payload (some (c ∷ m)) e = inl (e, λ h. ground arith)

  pub error_message-MessageOf :
      (payload : Bytes) → MessageOf payload (error_message platform payload)
  unfolding error_message
  error_message-MessageOf payload =
      message_or_raw-MessageOf payload (platform.message_of payload) refl

  MessageOf-message_or_raw :
      (payload m : Bytes) (o : Option Bytes)
      → platform.message_of payload ≡ o
      → MessageOf payload m
      → m ≡ message_or_raw o payload
  MessageOf-message_or_raw payload m none e (inl (named, set)) = ground arith
  MessageOf-message_or_raw payload m none e (inr (h, first)) =
      FirstBytes-take 200 (trim_space payload) m first
  MessageOf-message_or_raw payload m (some []) e (inl (named, set)) = ground arith
  MessageOf-message_or_raw payload m (some []) e (inr (h, first)) =
      FirstBytes-take 200 (trim_space payload) m first
  MessageOf-message_or_raw payload m (some (c ∷ s)) e (inl (named, set)) = ground arith
  MessageOf-message_or_raw payload m (some (c ∷ s)) e (inr (h, first)) = ground arith

  pub MessageOf-error_message :
      (payload m : Bytes) → MessageOf payload m → m ≡ error_message platform payload
  unfolding error_message
  MessageOf-error_message payload m h =
      MessageOf-message_or_raw payload m (platform.message_of payload) refl h

  -- Where the message of a refusal comes from: the payload names one, or a run of at most 200 bytes of
  -- the payload stands in for it.
  abbrev pub IsMessage : Bytes → Bytes → Type 0
  IsMessage payload m =
      ((platform.message_of payload ≡ some m) × (m ≢ []))
      ⊎ (HasNoMessage payload × (length m ≤ 200) × IsPart m payload)

  message_or_raw-IsMessage :
      (payload : Bytes) (o : Option Bytes)
      → platform.message_of payload ≡ o
      → IsMessage payload (message_or_raw o payload)
  message_or_raw-IsMessage payload none e =
      inr (inl e, length-take 200 (trim_space payload), raw_message-IsPart payload)
  message_or_raw-IsMessage payload (some []) e =
      inr (inr e, length-take 200 (trim_space payload), raw_message-IsPart payload)
  message_or_raw-IsMessage payload (some (c ∷ m)) e = inl (e, λ h. ground arith)

  error_message-IsMessage : (payload : Bytes) → IsMessage payload (error_message platform payload)
  unfolding error_message
  error_message-IsMessage payload =
      message_or_raw-IsMessage payload (platform.message_of payload) refl

  module _ {A : Type 0} (out : Option (Bytes → Option A)) (initial : A) where
    -- What is decoded of a payload: nothing where the caller wants nothing or the payload is empty,
    -- and else what the decoder of the caller makes of it.
    abbrev pub Decodes : Bytes → Result A → Type 0
    Decodes payload r =
        (((out ≡ none) ⊎ (payload ≡ [])) × (r ≡ ok initial))
        ⊎ ((unmarshal : Bytes → Option A) × (out ≡ some unmarshal)
            × (payload ≢ [])
            × (((a : A) × (unmarshal payload ≡ some a) × (r ≡ ok a))
                ⊎ ((unmarshal payload ≡ none)
                    × (r ≡ err (wrapped "cannot decode response body" (plain "json.Unmarshal"))))))

    -- The result of an answer, by the part of its body that is read.
    abbrev pub AnswerOutcome : ℕ → Bytes → Result A → Type 0
    AnswerOutcome status payload r =
        ((200 ≤ status) × (status ≤ 299) × Decodes payload r)
        ⊎ (OutOfRange status
            × (message : Bytes) × (r
                ≡ err (api_error (record { status_code = status; message = message })))
            × IsMessage payload message)

    refusal_outcome :
        (status : ℕ) (payload : Bytes)
        → is_success status ≡ false
        → AnswerOutcome status payload (decode_payload platform out initial status payload)
    refusal_outcome status payload h =
        let far : OutOfRange status = ground arith in
        rw h (inr (far, error_message platform payload, refl, error_message-IsMessage payload))

    success_outcome :
        (status : ℕ) (payload : Bytes)
        → is_success status ≡ true
        → Decodes payload (decode_success out initial payload)
        → AnswerOutcome status payload (decode_payload platform out initial status payload)
    success_outcome status payload h k =
        let low : 200 ≤ status = ground arith in
        let high : status ≤ 299 = ground arith in rw h (inl (low, high, k))

  module _ {A : Type 0} (initial : A) where
    unmarshalled-Decodes :
        (unmarshal : Bytes → Option A) (payload : Bytes) (o : Option A)
        → payload ≢ []
        → unmarshal payload ≡ o
        → Decodes (some unmarshal) initial payload (unmarshalled o)
    unmarshalled-Decodes unmarshal payload none set h = inr (unmarshal, refl, set, inr (h, refl))
    unmarshalled-Decodes unmarshal payload (some a) set h =
        inr (unmarshal, refl, set, inl (a, h, refl))

    decode_success-Decodes :
        (out : Option (Bytes → Option A)) (payload : Bytes)
        → Decodes out initial payload (decode_success out initial payload)
    decode_success-Decodes none payload = inl (inl refl, refl)
    decode_success-Decodes (some unmarshal) [] = inl (inr refl, refl)
    decode_success-Decodes (some unmarshal) (c ∷ s) =
        unmarshalled-Decodes unmarshal (c ∷ s) (unmarshal (c ∷ s)) (λ h. ground arith) refl

  module _ {A : Type 0} (out : Option (Bytes → Option A)) (initial : A) where
    decode_payload-AnswerOutcome :
        (status : ℕ) (payload : Bytes)
        → AnswerOutcome out initial status payload
            (decode_payload platform out initial status payload)
    decode_payload-AnswerOutcome status payload = elim (Bool-cases (is_success status)) [
      | inl good ↦
          success_outcome out initial status payload good
            (decode_success-Decodes initial out payload)
      | inr bad ↦ refusal_outcome out initial status payload bad
    ]

    -- Of any body that can be read, all of it or its first 4 MiB are looked at. With a status from
    -- 200 to 299 the answer is what the decoder makes of that part, and no error where the caller
    -- wants nothing or the part is empty. With any other status it is an `APIError` of that status,
    -- and its message is the one that this part of the body names, or else a run of consecutive
    -- bytes of it, of at most 200 bytes.
    pub decode_response-AnswerOutcome :
        (status : ℕ) (body : Bytes)
        → (payload : Bytes) × FirstBytes 4_194_304 body payload
          × AnswerOutcome out initial status payload (
              decode_response platform out initial
                (record { status_code = status; body = some body }))
    unfolding decode_response body_limit
    decode_response-AnswerOutcome status body = (
      take body_limit body,
      take-FirstBytes body_limit body,
      decode_payload-AnswerOutcome status (take body_limit body),
    )
