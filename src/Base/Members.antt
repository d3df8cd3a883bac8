-- ===== src/Base/Members.antt =====
-- Membership in a list whose elements cannot be compared, and what a list's members share.
use mathlib.Core.Path.{◌≡◌}
use mathlib.Core.Logic.{◌⊎◌, inr, Lift}
use mathlib.Core.List.{List, [], ◌∷◌, ◌++◌}

module _ {ℓ} {A : Type ℓ} where
  abbrev pub In : A → List A → Type ℓ
  In a [] = Lift {0, ℓ} ⊥
  In a (x ∷ xs) = (a ≡ x) ⊎ In a xs

  pub In-append : (a : A) (xs ys : List A) → In a ys → In a (xs ++ ys)
  In-append a [] ys h = h
  In-append a (x ∷ xs) ys h = inr (In-append a xs ys h)
