-- ===== src/Growthbook/Text/Utf8.antt =====
-- The UTF-8 of a text, as internal/clients/growthbook puts it into URLs and bodies.
use Prim.Native.Nat.{Ordering, compare}
use Prim.Native.Char.{Char, char, code, IsLt, IsScalar}
use native.Mathlib.Omega.{compare-lt}
use provider_growthbook.Base.{
  ℕ, ◌<◌, String, [], ◌∷◌, ◌++◌, ◌≡◌, ◌⊎◌, inl, inr, refl, arith, ltb, Bool-cases, nat_eq,
}
use provider_growthbook.Base.Lists.{All}
use provider_growthbook.Growthbook.Text.{Bytes, utf8, rune_bytes}

-- The comparisons of `IsScalar`, which are private to its module.
abbrev BothLess : Ordering → Ordering → Type 0
BothLess Ordering.lt o = IsLt o
BothLess Ordering.eq o = ⊥
BothLess Ordering.gt o = ⊥

abbrev ScalarBy : Ordering → Ordering → Ordering → Type 0
ScalarBy Ordering.lt p q = Unit
ScalarBy Ordering.eq p q = BothLess p q
ScalarBy Ordering.gt p q = BothLess p q

IsLt-lt : (o : Ordering) → IsLt o → o ≡ Ordering.lt
IsLt-lt Ordering.lt h = refl
IsLt-lt Ordering.eq h = absurd h
IsLt-lt Ordering.gt h = absurd h

BothLess-lt : (p q : Ordering) → BothLess p q → q ≡ Ordering.lt
BothLess-lt Ordering.lt q h = IsLt-lt q h
BothLess-lt Ordering.eq q h = absurd h
BothLess-lt Ordering.gt q h = absurd h

ScalarBy-lt : (o p q : Ordering) → ScalarBy o p q → (o ≡ Ordering.lt) ⊎ (q ≡ Ordering.lt)
ScalarBy-lt Ordering.lt p q h = inl refl
ScalarBy-lt Ordering.eq p q h = inr (BothLess-lt p q h)
ScalarBy-lt Ordering.gt p q h = inr (BothLess-lt p q h)

scalar_bound : (n : ℕ) → IsScalar n → n < 1_114_112
scalar_bound n h = elim (ScalarBy-lt (compare n 55296) (compare 57343 n) (compare n 1114112) h) [
  | inl low ↦ let h = compare-lt n 55296 low in omega arith
  | inr high ↦ compare-lt n 1114112 high
]

code_bound : (c : Char) → code c < 1_114_112
code_bound (char n h) = scalar_bound n h

rune_bytes-bound : (c : ℕ) → c < 1_114_112 → All (λ b. b < 256) (rune_bytes c)
unfolding rune_bytes
rune_bytes-bound c h = elim (Bool-cases (ltb c 128)) [
  | inl one ↦ rw one (ground arith, tt)
  | inr more ↦ elim (Bool-cases (ltb c 2048)) [
    | inl two ↦ let b : c < 2048 = ground arith in rw (more, two) (omega arith, (omega arith, tt))
    | inr wide ↦ elim (Bool-cases (ltb c 65536)) [
      | inl three ↦
          let b : c < 65536 = ground arith in
          rw (more, wide, three) (omega arith, (omega arith, (omega arith, tt)))
      | inr four ↦
          rw (more, wide, four) (omega arith, (omega arith, (omega arith, (omega arith, tt))))
    ]
  ]
]

All-append :
    (s t : Bytes) → All (λ b. b < 256) s → All (λ b. b < 256) t → All (λ b. b < 256) (s ++ t)
All-append [] t h k = k
All-append (b ∷ s) t (here, h) k = (here, All-append s t h k)

-- Every byte of a text is less than 256.
pub utf8-bound : (s : String) → All (λ b. b < 256) (utf8 s)
unfolding utf8
utf8-bound String.[] = tt
utf8-bound (String.◌∷◌ c s) =
    All-append (rune_bytes (code c)) (utf8 s) (rune_bytes-bound (code c) (code_bound c))
      (utf8-bound s)
