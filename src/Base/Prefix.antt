-- ===== src/Base/Prefix.antt =====
-- Prefixes of literals and of what is built by `<>` from them.
use text.Mathlib.TextLemmas.{cons-append}
use Prim.Native.Char.{code}
use Prim.Native.String.{String, ◌++◌ as ◌<>◌}
use mathlib.Core.Path.{◌≡◌, refl}
use mathlib.Core.Bool.{Bool, true, false, ◌||◌}
use mathlib.Core.List.{List, [], ◌∷◌, ◌++◌}
use native.Mathlib.Omega.{arith}
use autok3s.Base.Tests.{if◌then◌else◌}
use autok3s.Base.Text.{same_code, has_prefix}
use autok3s.Base.Strings.{sort, insert_sorted}

-- The two texts differ at a place that both have, so neither is a prefix of any extension of the
-- other.
unfoldable pub clash : String → String → Bool
clash String.[] p = false
clash (String.◌∷◌ c s) String.[] = false
clash (String.◌∷◌ c s) (String.◌∷◌ d p) = if same_code (code c) (code d) then clash s p else true

pub has_prefix_of_clash : (s x p : String) → clash s p ≡ true → has_prefix (s <> x) p ≡ false
unfolding clash has_prefix
has_prefix_of_clash String.[] x p h = ground arith
has_prefix_of_clash (String.◌∷◌ c s) x String.[] h = ground arith
has_prefix_of_clash (String.◌∷◌ c s) x (String.◌∷◌ d p) h =
    rw cons-append (ground (arith, has_prefix_of_clash s x p))

pub has_prefix-clash : (s p : String) → clash s p ≡ true → has_prefix s p ≡ false
unfolding clash has_prefix
has_prefix-clash String.[] p h = ground arith
has_prefix-clash (String.◌∷◌ c s) String.[] h = ground arith
has_prefix-clash (String.◌∷◌ c s) (String.◌∷◌ d p) h = ground (arith, has_prefix-clash s p)

pub has_prefix-append : (s x : String) → has_prefix (s <> x) s ≡ true
unfolding has_prefix
has_prefix-append String.[] x = refl
has_prefix-append (String.◌∷◌ c s) x = rw cons-append (ground (arith, has_prefix-append s x))

-- Some member of the list begins with `p`.
unfoldable pub any_prefix : String → List String → Bool
any_prefix p [] = false
any_prefix p (x ∷ xs) = has_prefix x p || any_prefix p xs

module _ (p : String) where
  pub any_prefix-append :
      (xs ys : List String) → any_prefix p (xs ++ ys) ≡ (any_prefix p xs || any_prefix p ys)
  unfolding any_prefix
  any_prefix-append [] ys = refl
  any_prefix-append (x ∷ xs) ys = ground (arith, any_prefix-append xs ys)

  any_prefix-insert :
      (x : String) (ys : List String)
      → any_prefix p (insert_sorted x ys) ≡ (has_prefix x p || any_prefix p ys)
  unfolding any_prefix insert_sorted
  any_prefix-insert x [] = refl
  any_prefix-insert x (y ∷ ys) = ground (arith, any_prefix-insert x ys)

  pub any_prefix-sort : (xs : List String) → any_prefix p (sort xs) ≡ any_prefix p xs
  unfolding any_prefix sort
  any_prefix-sort [] = refl
  any_prefix-sort (x ∷ xs) = ground (arith, any_prefix-insert x (sort xs), any_prefix-sort xs)
