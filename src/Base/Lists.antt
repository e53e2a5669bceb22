-- ===== src/Base/Lists.antt =====
-- Lists measured by native numbers, predicates on lists, and Go's slices and maps.
use Prim.Native.Nat.{ℕ, suc}
use Prim.Native.String.{String}
use mathlib.Core.Path.{◌≡◌, refl, ap, sym, ◌∙◌}
use mathlib.Core.Bool.{Bool, true, ◌&&◌}
use mathlib.Core.Option.{Option, none, some}
use mathlib.Core.List.{List, [], ◌∷◌, map, length as unary_length, Perm}
use mathlib.Core.List.Perm
use native.Mathlib.Bridge.{from_ℕ, to_ℕ, to_ℕ-from_ℕ}
use provider_growthbook.Base.Tests.{◌==◌, string_eq, if◌then◌else◌}

module _ {ℓ} {A : Type ℓ} where
  abbrev pub length : List A → ℕ
  length [] = 0
  length (x ∷ xs) = suc (length xs)

  -- Ranging over a nil slice or map, or taking its length, is as for an empty one.
  abbrev pub elems : Option (List A) → List A
  elems none = []
  elems (some xs) = xs

  abbrev pub all : (A → Bool) → List A → Bool
  all p [] = true
  all p (x ∷ xs) = p x && all p xs

  pub length-bridge : (xs : List A) → length xs ≡ from_ℕ (unary_length xs)
  length-bridge [] = refl
  length-bridge (x ∷ xs) = ap suc (length-bridge xs)

  pub length_of_perm : {xs ys : List A} → Perm xs ys → length xs ≡ length ys
  length_of_perm {xs} {ys} p =
      length-bridge xs ∙ ap from_ℕ (Perm.length-eq p) ∙ sym (length-bridge ys)

module _ {ℓ κ} {A : Type ℓ} {B : Type κ} where
  -- Equal lengths are equal as the library measures them, too.
  pub unary_length_of_length :
      (xs : List A) (ys : List B) → length xs ≡ length ys → unary_length xs ≡ unary_length ys
  unary_length_of_length xs ys e =
      sym (to_ℕ-from_ℕ _) ∙ ap to_ℕ (sym (length-bridge xs) ∙ e ∙ length-bridge ys) ∙ to_ℕ-from_ℕ _

  pub length-map : (f : A → B) (xs : List A) → length (map f xs) ≡ length xs
  length-map f [] = refl
  length-map f (x ∷ xs) = ap suc (length-map f xs)

module _ {ℓ κ} {A : Type ℓ} (P : A → Type κ) where
  abbrev pub All : List A → Type κ
  All [] = Unit
  All (x ∷ xs) = P x × All xs

module _ {ℓ κ} {A : Type ℓ} {B : Type κ} (R : A → B → Type 0) where
  -- Lists of one length that are related place by place.
  abbrev pub Pointwise : List A → List B → Type 0
  Pointwise [] [] = Unit
  Pointwise [] (y ∷ ys) = ⊥
  Pointwise (x ∷ xs) [] = ⊥
  Pointwise (x ∷ xs) (y ∷ ys) = R x y × Pointwise xs ys

-- A Go map is the list of its entries; a read takes the entry of that key.
module _ {ℓ} {V : Type ℓ} where
  abbrev pub lookup : String → List (String × V) → Option V
  lookup k [] = none
  lookup k ((j, v) ∷ m) = if j == k then some v else lookup k m
