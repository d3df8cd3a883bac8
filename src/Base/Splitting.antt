-- ===== src/Base/Splitting.antt =====
-- `strings.Split` undoes `strings.Join` where no part holds the separator.
use text.Mathlib.TextLemmas.{nil-append, cons-append}
use Prim.Native.Char.{Char, code}
use Prim.Native.String.{String, ◌++◌ as ◌<>◌}
use mathlib.Core.Path.{◌≡◌, refl, ap, ◌∙◌}
use mathlib.Core.Logic.{◌≢◌}
use mathlib.Core.Bool.{true, false}
use mathlib.Core.List.{List, [], ◌∷◌, ◌++◌, cons-ne-nil}
use native.Mathlib.Omega.{arith}
use autok3s.Base.Text.{same_code, split, join}

module _ (sep : Char) where
  -- No character of the text is the separator.
  abbrev pub Lacks : String → Type 0
  Lacks String.[] = Unit
  Lacks (String.◌∷◌ c s) = (same_code (code c) (code sep) ≡ false) × Lacks s

  abbrev pub AllLack : List String → Type 0
  AllLack [] = Unit
  AllLack (x ∷ xs) = Lacks x × AllLack xs

  pub Lacks-append : (s t : String) → Lacks s → Lacks t → Lacks (s <> t)
  Lacks-append String.[] t h k = rw nil-append k
  Lacks-append (String.◌∷◌ c s) t (n, h) k = rw cons-append (n, Lacks-append s t h k)

  pub AllLack-append : (xs ys : List String) → AllLack xs → AllLack ys → AllLack (xs ++ ys)
  AllLack-append [] ys h k = k
  AllLack-append (x ∷ xs) ys (n, h) k = (n, AllLack-append xs ys h k)

  abbrev word : String
  word = String.◌∷◌ sep String.[]

  word-append : (s : String) → word <> s ≡ String.◌∷◌ sep s
  word-append s = cons-append sep String.[] s ∙ ap (String.◌∷◌ sep) (nil-append s)

  same_self : same_code (code sep) (code sep) ≡ true
  same_self = ground arith

  split-part :
      (p rest : String)
      → Lacks p
      → split (p <> (word <> rest)) (code sep) ≡ p ∷ split rest (code sep)
  unfolding split
  split-part String.[] rest h = rw (nil-append, word-append, same_self)
  split-part (String.◌∷◌ c p) rest (n, h) = rw (cons-append, split-part p rest h, n)

  split-last : (p : String) → Lacks p → split p (code sep) ≡ p ∷ []
  unfolding split
  split-last String.[] h = refl
  split-last (String.◌∷◌ c p) (n, h) = rw (split-last p h, n)

  pub split-join : (xs : List String) → xs ≢ [] → AllLack xs → split (join xs word) (code sep) ≡ xs
  unfolding join
  split-join [] n h = absurd (n refl)
  split-join (x ∷ []) n (h, _) = split-last x h
  split-join (x ∷ y ∷ xs) n (h, hs) =
      rw (split-part x (join (y ∷ xs) word) h, split-join (y ∷ xs) (cons-ne-nil y xs) hs)
