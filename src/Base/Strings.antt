-- ===== src/Base/Strings.antt =====
-- Lists of strings: membership, absence of duplicates, and `sort.Strings`.
use Prim.Native.String.{String}
use mathlib.Core.Path.{◌≡◌, refl, ◌∙◌}
use mathlib.Core.Bool.{Bool, true, false, ◌||◌}
use mathlib.Core.List.{List, [], ◌∷◌, ◌++◌}
use native.Mathlib.Omega.{arith}
use text.Mathlib.Text.{◌==◌}
use text.Mathlib.TextEquality.{eq_iff}
use autok3s.Base.Tests.{if◌then◌else◌}
use autok3s.Base.Text.{text_leb, text_leb_total}

-- The loop of `StringArray.Contains`, and the lookup in a `map[string]bool` kept as its keys.
unfoldable pub contains : List String → String → Bool
contains [] target = false
contains (content ∷ a) target = target == content || contains a target

abbrev pub Distinct : List String → Type 0
Distinct [] = Unit
Distinct (x ∷ xs) = (contains xs x ≡ false) × Distinct xs

-- `m[x] = true`, on the keys of `m`.
unfoldable pub add_key : String → List String → List String
add_key x keys = if contains keys x then keys else keys ++ x ∷ []

-- `delete(m, x)`, on the keys of `m`.
unfoldable pub delete_key : String → List String → List String
delete_key x [] = []
delete_key x (k ∷ keys) = let rest = delete_key x keys in if x == k then rest else k ∷ rest

unfoldable pub insert_sorted : String → List String → List String
insert_sorted x [] = x ∷ []
insert_sorted x (y ∷ ys) = if text_leb x y then x ∷ y ∷ ys else y ∷ insert_sorted x ys

-- `sort.Strings`. Its result does not depend on the algorithm: equal strings cannot be told apart.
unfoldable pub sort : List String → List String
unfolding insert_sorted
sort [] = []
sort (x ∷ xs) = insert_sorted x (sort xs)

abbrev AllAbove : String → List String → Type 0
AllAbove x [] = Unit
AllAbove x (y ∷ ys) = (text_leb x y ≡ true) × AllAbove x ys

abbrev pub IsSorted : List String → Type 0
IsSorted [] = Unit
IsSorted (x ∷ []) = Unit
IsSorted (x ∷ y ∷ ys) = (text_leb x y ≡ true) × IsSorted (y ∷ ys)

module _ (x : String) where
  insert-IsSorted : (ys : List String) → IsSorted ys → IsSorted (insert_sorted x ys)
  unfolding insert_sorted
  insert-IsSorted [] h = tt
  insert-IsSorted (y ∷ []) h = ground (arith, text_leb_total x y)
  insert-IsSorted (y ∷ z ∷ ys) h =
      ground (arith, text_leb_total x y, text_leb_total x z, insert-IsSorted (z ∷ ys))

  contains-insert :
      (ys : List String) (a : String) → contains (insert_sorted x ys) a ≡ (a == x || contains ys a)
  unfolding insert_sorted contains
  contains-insert [] a = refl
  contains-insert (y ∷ ys) a = ground (arith, contains-insert ys a)

  insert-Distinct :
      (ys : List String) → contains ys x ≡ false → Distinct ys → Distinct (insert_sorted x ys)
  unfolding insert_sorted contains
  insert-Distinct [] n h = ground arith
  insert-Distinct (y ∷ ys) n h =
      ground (arith, insert-Distinct ys, contains-insert ys y, eq_iff x y, eq_iff y x)

pub sort-IsSorted : (xs : List String) → IsSorted (sort xs)
unfolding sort
sort-IsSorted [] = tt
sort-IsSorted (x ∷ xs) = insert-IsSorted x (sort xs) (sort-IsSorted xs)

pub contains-sort : (xs : List String) (a : String) → contains (sort xs) a ≡ contains xs a
unfolding sort contains
contains-sort [] a = refl
contains-sort (x ∷ xs) a = ground (arith, contains-insert x (sort xs) a, contains-sort xs a)

pub sort-Distinct : (xs : List String) → Distinct xs → Distinct (sort xs)
unfolding sort
sort-Distinct [] h = tt
sort-Distinct (x ∷ xs) (n, h) =
    insert-Distinct x (sort xs) (contains-sort xs x ∙ n) (sort-Distinct xs h)

pub contains-append :
    (xs ys : List String) (a : String) → contains (xs ++ ys) a ≡ (contains xs a || contains ys a)
unfolding contains
contains-append [] ys a = refl
contains-append (x ∷ xs) ys a = ground (arith, contains-append xs ys a)

pub contains-add_key :
    (x : String) (keys : List String) (a : String)
    → contains (add_key x keys) a ≡ (a == x || contains keys a)
unfolding add_key contains
contains-add_key x keys a = ground (arith, contains-append keys (x ∷ []) a, eq_iff a x, eq_iff x a)

append-Distinct :
    (x : String) (keys : List String)
    → contains keys x ≡ false
    → Distinct keys
    → Distinct (keys ++ x ∷ [])
unfolding contains
append-Distinct x [] n h = (refl, tt)
append-Distinct x (k ∷ keys) n h =
    ground (arith, append-Distinct x keys, contains-append keys (x ∷ []) k, eq_iff x k, eq_iff k x)

pub add_key-Distinct : (x : String) (keys : List String) → Distinct keys → Distinct (add_key x keys)
unfolding add_key
add_key-Distinct x keys h = ground (arith, append-Distinct x keys)

pub contains-delete_key :
    (x : String) (keys : List String) (a : String)
    → contains (delete_key x keys) a ≡ (if a == x then false else contains keys a)
unfolding delete_key contains
contains-delete_key x [] a = ground arith
contains-delete_key x (k ∷ keys) a =
    ground (arith, contains-delete_key x keys a, eq_iff x k, eq_iff a k, eq_iff a x)
