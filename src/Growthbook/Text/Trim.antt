-- ===== src/Growthbook/Text/Trim.antt =====
-- `bytes.TrimSpace` takes bytes off the two ends and nothing else.
use provider_growthbook.Base.{ℕ, zero, suc, [], ◌∷◌, ◌++◌, ◌≡◌, refl, ◌∙◌, ap}
use provider_growthbook.Growthbook.Text.{Bytes, space_length, trim_left, trim_right, trim_space}

-- A run of consecutive bytes of a text.
abbrev pub IsPart : Bytes → Bytes → Type 0
IsPart m s = (before : Bytes) × (after : Bytes) × (s ≡ before ++ (m ++ after))

trim_left-suffix : (k : ℕ) (s : Bytes) → (before : Bytes) × (s ≡ before ++ trim_left k s)
unfolding trim_left
trim_left-suffix k [] = ([], refl)
trim_left-suffix (suc k) (c ∷ s) =
    let (before, e) = trim_left-suffix k s in (c ∷ before, ap (◌∷◌ c) e)
trim_left-suffix zero (c ∷ s) =
    elim (space_length (c ∷ s))
      as (λ n.
        (before : Bytes) × ((c ∷ s)
          ≡ before ++ (elim n [ zero ↦ c ∷ s | suc k ↦ trim_left k s ]))) [
            | zero ↦ ([], refl)
            | suc k ↦ let (before, e) = trim_left-suffix k s in (c ∷ before, ap (◌∷◌ c) e)
          ]

-- A text is kept up to where the rest is white space alone.
kept-prefix :
    (left rest whole : Bytes)
    → (after : Bytes) × (whole ≡ rest ++ after)
    → (after : Bytes) × (whole ≡ (elim left [ [] ↦ [] | _ ↦ rest ]) ++ after)
kept-prefix [] rest whole h = (whole, refl)
kept-prefix (d ∷ left) rest whole h = h

trim_right-prefix : (s : Bytes) → (after : Bytes) × (s ≡ trim_right s ++ after)
unfolding trim_right
trim_right-prefix [] = ([], refl)
trim_right-prefix (c ∷ s) =
    let (after, e) = trim_right-prefix s in
    kept-prefix (trim_left 0 (c ∷ s)) (c ∷ trim_right s) (c ∷ s) (after, ap (◌∷◌ c) e)

pub trim_space-IsPart : (s : Bytes) → IsPart (trim_space s) s
unfolding trim_space
trim_space-IsPart s =
    let (before, e) = trim_left-suffix 0 s in
    let (after, h) = trim_right-prefix (trim_left 0 s) in
    (before, after, e ∙ ap (λ t. before ++ t) h)
