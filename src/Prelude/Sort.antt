-- ===== src/Prelude/Sort.antt =====
-- A stable sort by a Boolean order, and what it keeps.
use Prim.Native.Nat.{suc}
use mathlib.Core.Path.{◌≡◌, refl, ap, ◌∙◌}
use mathlib.Core.Logic.{inl, inr}
use mathlib.Core.Bool.{Bool, true, false, ◌||◌}
use mathlib.Core.List.{List, [], ◌∷◌}
use native.Mathlib.Omega.{arith}
use cga.Prelude.Tests.{if◌then◌else◌, Bool-cases}
use cga.Prelude.Lists.{length, any}

module _ {ℓ} {A : Type ℓ} (le : A → A → Bool) where
  -- `x` before the first item that it is not after.
  unfoldable pub place_by : A → List A → List A
  place_by x [] = x ∷ []
  place_by x (y ∷ ys) = let rest = place_by x ys in if le x y then x ∷ y ∷ ys else y ∷ rest

  -- `sorted(items)`: items that the order does not tell apart keep their order.
  unfoldable pub sort_by : List A → List A
  unfolding place_by
  sort_by [] = []
  sort_by (x ∷ xs) = place_by x (sort_by xs)

  -- Each item is before its neighbour.
  abbrev HeadAfter : A → List A → Type 0
  HeadAfter x [] = Unit
  HeadAfter x (y ∷ ys) = le x y ≡ true

  abbrev pub IsOrdered : List A → Type 0
  IsOrdered [] = Unit
  IsOrdered (x ∷ xs) = HeadAfter x xs × IsOrdered xs

  pub any-place_by :
      (p : A → Bool) (x : A) (ys : List A) → any p (place_by x ys) ≡ (p x || any p ys)
  unfolding place_by any
  any-place_by p x [] = refl
  any-place_by p x (y ∷ ys) = ground (arith, any-place_by p x ys)

  pub any-sort_by : (p : A → Bool) (xs : List A) → any p (sort_by xs) ≡ any p xs
  unfolding sort_by any
  any-sort_by p [] = refl
  any-sort_by p (x ∷ xs) = any-place_by p x (sort_by xs) ∙ ap (λ b. p x || b) (any-sort_by p xs)

  length-place_by : (x : A) (ys : List A) → length (place_by x ys) ≡ suc (length ys)
  unfolding place_by
  length-place_by x [] = refl
  length-place_by x (y ∷ ys) = ground (arith, length-place_by x ys)

  pub length-sort_by : (xs : List A) → length (sort_by xs) ≡ length xs
  unfolding sort_by
  length-sort_by [] = refl
  length-sort_by (x ∷ xs) = length-place_by x (sort_by xs) ∙ ap suc (length-sort_by xs)

  -- What comes first after an insertion is the new item or the old first one.
  HeadAfter-place_by :
      (x y : A) (zs : List A) → le y x ≡ true → HeadAfter y zs → HeadAfter y (place_by x zs)
  unfolding place_by
  HeadAfter-place_by x y [] e k = e
  HeadAfter-place_by x y (z ∷ zs) e k = elim (Bool-cases (le x z)) [
    | inl q ↦ rw q e
    | inr q ↦ rw q k
  ]

  module _ (total : (x y : A) → le x y ≡ false → le y x ≡ true) where
    place_by-IsOrdered : (x : A) (ys : List A) → IsOrdered ys → IsOrdered (place_by x ys)
    unfolding place_by
    place_by-IsOrdered x [] o = (tt, tt)
    place_by-IsOrdered x (y ∷ ys) (h, o) = elim (Bool-cases (le x y)) [
      | inl e ↦ rw e (e, (h, o))
      | inr e ↦ rw e (HeadAfter-place_by x y ys (total x y e) h, place_by-IsOrdered x ys o)
    ]

    pub sort_by-IsOrdered : (xs : List A) → IsOrdered (sort_by xs)
    unfolding sort_by
    sort_by-IsOrdered [] = tt
    sort_by-IsOrdered (x ∷ xs) = place_by-IsOrdered x (sort_by xs) (sort_by-IsOrdered xs)
