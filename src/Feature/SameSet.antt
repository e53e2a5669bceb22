-- ===== src/Feature/SameSet.antt =====
-- `sameSet` of internal/controller/feature/convert.go.
use mathlib.Core.List.{Perm}
use provider_growthbook.Base.{
  String, Bool, true, false, Option, List, [], ◌∷◌, ◌≡◌, refl, ◌↔◌, ◌==◌, nat_eq, string_eq, arith,
  if◌then◌else◌, ==→≡, ==_refl,
}
use provider_growthbook.Base.Lists.{length, elems, length_of_perm}
use provider_growthbook.Base.Sort.{sort_strings, sort_strings-eq_iff_perm, sort_strings-perm}

-- The loop `for i := range as`, with the suffixes that are left of both.
same_elems : List String → List String → Bool
same_elems [] bs = true
same_elems (a ∷ as') [] = false
same_elems (a ∷ as') (b ∷ bs) = if a == b then same_elems as' bs else false

unfoldable pub same_set : Option (List String) → Option (List String) → Bool
unfolding same_elems
same_set a b =
    if length (elems a) == length (elems b)
    then same_elems (sort_strings (elems a)) (sort_strings (elems b))
    else false

same_elems_sound :
    (as' bs : List String) → length as' ≡ length bs → same_elems as' bs ≡ true → as' ≡ bs
unfolding same_elems
same_elems_sound [] [] n h = refl
same_elems_sound [] (b ∷ bs) n h = ground arith
same_elems_sound (a ∷ as') [] n h = ground arith
same_elems_sound (a ∷ as') (b ∷ bs) n h = ground (arith, ==→≡ a b, same_elems_sound as' bs)

same_elems_refl : (as' : List String) → same_elems as' as' ≡ true
unfolding same_elems
same_elems_refl [] = refl
same_elems_refl (a ∷ as') = rw (==_refl a) (same_elems_refl as')

length-sort : (xs : List String) → length (sort_strings xs) ≡ length xs
length-sort xs = length_of_perm (sort_strings-perm xs)

same_set_sound : (a b : Option (List String)) → same_set a b ≡ true → Perm (elems a) (elems b)
unfolding same_set
same_set_sound a b h = (sort_strings-eq_iff_perm (elems a) (elems b)).0 (
    same_elems_sound _ _
      (ground (
        arith,
        ==→≡ (length (elems a)) (length (elems b)),
        length-sort (elems a),
        length-sort (elems b),
      ))
      (ground arith))

same_set_complete : (a b : Option (List String)) → Perm (elems a) (elems b) → same_set a b ≡ true
unfolding same_set
same_set_complete a b p =
    rw
      (
        length_of_perm p,
        ==_refl (length (elems b)),
        (sort_strings-eq_iff_perm (elems a) (elems b)).1 p,
      )
      (same_elems_refl (sort_strings (elems b)))

-- Two lists are the same set exactly when one is a rearrangement of the other, a nil list counting
-- as an empty one: order is ignored, and how often a text occurs is not.
pub same_set-iff_perm :
    (a b : Option (List String)) → (same_set a b ≡ true) ↔ Perm (elems a) (elems b)
same_set-iff_perm a b = (same_set_sound a b, same_set_complete a b)
