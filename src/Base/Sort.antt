-- ===== src/Base/Sort.antt =====
-- `sort.Strings`: two lists sort to one list exactly when each is a rearrangement of the other.
use Prim.Native.String.{String}
use mathlib.Core.Path.{◌≡◌, refl, sym, ◌∙◌, subst, ap₂}
use mathlib.Core.Logic.{◌↔◌, inl, inr, ∥∥₁_elim}
use mathlib.Core.List.{List, [], ◌∷◌, Perm, Permᴰ}
use mathlib.Core.List.Perm
use native.Mathlib.Omega.{arith}
use text.Mathlib.TextEquality.{IsScalar-prop}
use provider_growthbook.Base.Tests.{Bool-cases, if◌then◌else◌}
use provider_growthbook.Base.Order.{str_le, str_le_total, str_le_antisymm, str_le_trans}

insert : String → List String → List String
insert x [] = x ∷ []
insert x (y ∷ ys) = if str_le x y then x ∷ y ∷ ys else y ∷ insert x ys

unfoldable pub sort_strings : List String → List String
unfolding insert str_le
sort_strings [] = []
sort_strings (x ∷ xs) = insert x (sort_strings xs)

insert_comm : (x y : String) (l : List String) → insert x (insert y l) ≡ insert y (insert x l)
unfolding insert
insert_comm x y [] = ground (arith, str_le_total x y, str_le_antisymm x y)
insert_comm x y (z ∷ l) = ground (
  arith,
  insert_comm x y l,
  str_le_total x y,
  str_le_antisymm x y,
  str_le_trans x y z,
  str_le_trans y x z,
  str_le_total x z,
  str_le_total y z,
  str_le_total y x,
  str_le_trans x z y,
  str_le_trans y z x,
)

insert-perm : (x : String) (l : List String) → Perm (insert x l) (x ∷ l)
unfolding insert
insert-perm x [] = Perm.rfl
insert-perm x (y ∷ l) = elim (Bool-cases (str_le x y)) [
  | inl le ↦ rw (le, insert) Perm.rfl
  | inr gt ↦ rw (gt, insert) (Perm.trans (Perm.cons y (insert-perm x l)) (Perm.swap x y l))
]

pub sort_strings-perm : (l : List String) → Perm (sort_strings l) l
unfolding sort_strings
sort_strings-perm [] = Perm.rfl
sort_strings-perm (x ∷ l) =
    Perm.trans (insert-perm x (sort_strings l)) (Perm.cons x (sort_strings-perm l))

sort_strings_of_permᴰ : {l m : List String} → Permᴰ l m → sort_strings l ≡ sort_strings m
unfolding sort_strings
sort_strings_of_permᴰ Permᴰ.nil = refl
sort_strings_of_permᴰ (Permᴰ.cons e p) = ap₂ insert e (sort_strings_of_permᴰ p)
sort_strings_of_permᴰ (Permᴰ.swap {a = a} {b = b} {l = l} e f) =
    rw (← e, ← f) (insert_comm a b (sort_strings l))
sort_strings_of_permᴰ (Permᴰ.trans p q) = sort_strings_of_permᴰ p ∙ sort_strings_of_permᴰ q

pub sort_strings-eq_iff_perm : (l m : List String) → (sort_strings l ≡ sort_strings m) ↔ Perm l m
sort_strings-eq_iff_perm l m = (
  λ e.
      Perm.trans (Perm.symm (sort_strings-perm l))
        (subst (λ s. Perm s m) (sym e) (sort_strings-perm m)),
  λ p. ∥∥₁_elim p (hlevel IsScalar-prop) sort_strings_of_permᴰ,
)
